-- ===== src/Frame/Image.antt =====
-- The bytes that `encode_frame` of src/frame.cpp leaves in the buffer, and what the loads of
-- `decode_frame` read back from them.
use ratehub.Prelude.{
  ℕ, zero, suc, ◌/◌, ◌^◌, ◌<◌, ◌≡◌, refl, ap, sym, ◌∙◌, leb_of_lt, true, List, [], ◌∷◌, length,
  get_or, arith,
}
use ratehub.Prelude.Words.{u8, u16, to_unsigned}
use ratehub.Types.{Record, max_sources, schema_version, frame_magic, frame_bytes}
use ratehub.Frame.{store_fields, store_u16, encode_frame, frame_crc}

-- The first `n` bytes of `xs`, each named by its index.
abbrev tabulate : ℕ → List ℕ → ℕ → List ℕ
tabulate zero xs i = []
tabulate (suc n) xs i = get_or xs i 0 ∷ tabulate n xs (suc i)

tabulate-cons :
    (n : ℕ) (x : ℕ) (xs : List ℕ) (i : ℕ) → tabulate n (x ∷ xs) (suc i) ≡ tabulate n xs i
tabulate-cons zero x xs i = refl
tabulate-cons (suc n) x xs i = ap (λ t. get_or xs i 0 ∷ t) (tabulate-cons n x xs (suc i))

tabulate-length : (xs : List ℕ) (n : ℕ) → length xs ≡ n → xs ≡ tabulate n xs 0
tabulate-length [] zero h = refl
tabulate-length [] (suc n) h = absurd (omega arith)
tabulate-length (x ∷ xs) zero h = absurd (omega arith)
tabulate-length (x ∷ xs) (suc n) h =
    ap (λ t. x ∷ t) (tabulate-length xs n (omega arith) ∙ sym (tabulate-cons n x xs 0))

abbrev pub be16 : ℕ → List ℕ → List ℕ
be16 v rest = u8 (v / 2 ^ 8) ∷ u8 v ∷ rest

abbrev pub be32 : ℕ → List ℕ → List ℕ
be32 v rest = u8 (v / 2 ^ 24) ∷ u8 (v / 2 ^ 16) ∷ u8 (v / 2 ^ 8) ∷ u8 v ∷ rest

abbrev pub be64 : ℕ → List ℕ → List ℕ
be64 v rest =
    u8 (v / 2 ^ 56)
    ∷ u8 (v / 2 ^ 48)
    ∷ u8 (v / 2 ^ 40)
    ∷ u8 (v / 2 ^ 32)
    ∷ u8 (v / 2 ^ 24)
    ∷ u8 (v / 2 ^ 16)
    ∷ u8 (v / 2 ^ 8)
    ∷ u8 (v / 1)
    ∷ rest

-- The frame of a record, with whatever follows the 36 bytes of the fields.
abbrev pub image : Record → List ℕ → List ℕ
image r rest = be16 frame_magic (
    be16 schema_version (
      be16 (u16 r.source_id) (
        be16 0 (
          be32 r.sequence (
            be64 (to_unsigned (2 ^ 64) r.time_ns) (
              be32 (to_unsigned (2 ^ 32) r.pos_x) (
                be32 (to_unsigned (2 ^ 32) r.pos_y) (
                  be32 (to_unsigned (2 ^ 32) r.vel_x)
                    (be32 (to_unsigned (2 ^ 32) r.vel_y) rest)))))))))

store_fields_table :
    (r : Record) (out : List ℕ)
    → store_fields r (tabulate 38 out 0) ≡ image r (get_or out 36 0 ∷ get_or out 37 0 ∷ [])
unfolding store_fields
store_fields_table r out = refl

store_fields-image :
    (r : Record) (out : List ℕ)
    → length out ≡ frame_bytes
    → store_fields r out ≡ image r (get_or out 36 0 ∷ get_or out 37 0 ∷ [])
store_fields-image r out h =
    ap (store_fields r) (tabulate-length out 38 h) ∙ store_fields_table r out

-- The CRC of the fields of a record.
abbrev pub crc_of : Record → ℕ
crc_of r = frame_crc (image r [])

pub encode_frame-image :
    (r : Record) (out : List ℕ)
    → length out ≡ frame_bytes
    → r.source_id < max_sources
    → encode_frame r out ≡ (true, image r (be16 (crc_of r) []))
unfolding encode_frame store_u16
encode_frame-image r out h s =
    rw (store_fields-image r out h, encode_frame, leb_of_lt max_sources r.source_id s)
