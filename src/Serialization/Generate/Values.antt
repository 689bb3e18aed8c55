-- ===== src/Serialization/Generate/Values.antt =====
-- The messages of the generator have values that their members hold, and sizes that a buffer of MessagePack
-- can tell (generate-data/src/main.cpp).
use modern_cpp_hw.Prelude.{All}
use modern_cpp_hw.Prelude.{◌<◌, ◌^◌, List, [], ◌∷◌, arith}
use modern_cpp_hw.Serialization.Message.{Attachment, Message, AreMessages}
use modern_cpp_hw.Serialization.Message.Msgpack.RoundTrip.{AreShortAttachments, AreShort}
use modern_cpp_hw.Serialization.Generate.{Random, Options}
use modern_cpp_hw.Serialization.Generate.Bounds.{IsSized, IsGenerated}

module _ (lib : Random) (o : Options) where
  pub generated-AreMessages : (ms : List Message) → All (IsGenerated lib o) ms → AreMessages ms
  generated-AreMessages [] a = tt
  generated-AreMessages (m ∷ rest) (h, a) = (h.fits, generated-AreMessages rest a)

  sized-AreShortAttachments :
      (xs : List Attachment)
      → o.attach_size_to < 2 ^ 32
      → All (IsSized lib o.attach_size_from o.attach_size_to) xs
      → AreShortAttachments xs
  sized-AreShortAttachments [] l a = tt
  sized-AreShortAttachments (x ∷ rest) l (h, a) =
      (omega (arith, h.0.1, l), sized-AreShortAttachments rest l a)

  pub generated-AreShort :
      (ms : List Message)
      → o.text_to < 2 ^ 32
      → o.attach_count_to < 2 ^ 32
      → o.attach_size_to < 2 ^ 32
      → All (IsGenerated lib o) ms
      → AreShort ms
  generated-AreShort [] t c l a = tt
  generated-AreShort (m ∷ rest) t c l (h, a) = (
    (
      omega (arith, h.text_length.1, t),
      omega (arith, h.count.1, c),
      sized-AreShortAttachments m.attachments l h.sizes,
    ),
    generated-AreShort rest t c l a,
  )
