-- ===== src/Socks/Main/Trial.antt =====
-- A host on which every call succeeds, and the event loop throws.
use modern_cpp_hw.Prelude.{◌≡◌, ◌≢◌, refl, some, true, false}
use modern_cpp_hw.Socks.Host.{Arguments, parsed, throws, Host, fault}
use modern_cpp_hw.Socks.Main.{main}
use modern_cpp_hw.Socks.Main.Ends.{HandlesSignals, EndsWell, threads_for, main-ends}

abbrev arguments : Arguments
arguments = record { threads = some 0; port = 1080; kernel_polling = false }

abbrev willing_host : Host
willing_host = record {
  hardware_concurrency = 4;
  command_line = parsed arguments;
  is_root = true;
  descriptor = 3;
  succeeds = λ c. true;
  leaves = throws;
}

willing_host-HandlesSignals : HandlesSignals willing_host
willing_host-HandlesSignals = record { pipe = refl; int = refl; quit = refl }

main-ends_example :
    (threads_for willing_host arguments ≡ 0 → (main willing_host).0 ≡ fault)
    × (threads_for willing_host arguments ≢ 0 → EndsWell willing_host (main willing_host))
main-ends_example = main-ends willing_host arguments refl willing_host-HandlesSignals
