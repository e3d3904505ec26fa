-- ===== src/Index/Comment.antt =====
-- ParseCommentFromPayload of ton-index-go/index/tlb.go, which ParseRawAction calls. An error is
-- `none`, and a payload without a comment gives no text. The cells of tonutils-go are a parameter.
use ton_indexer.Prelude.{
  ℕ, String, Bool, true, false, Option, none, some, List, ◌≡◌, refl, ◌==◌, if◌then◌else◌, str_eq,
  Bool-cases, inl, inr, arith, ap, Option-cases,
}
use ton_indexer.Prelude.Base64.{decode_string, encode_to_string}

pub record Cells : Type 1 where
  pub Slice : Type 0
  pub from_boc : List ℕ → Option Slice
  pub load_uint : Slice → Option (ℕ × Slice)
  pub load_binary_snake : Slice → Option (List ℕ)
  pub load_string_snake : Slice → Option String

abbrev pub encrypted_comment : ℕ
encrypted_comment = 0x2167da4b

-- the text that was loaded, and whether it is encrypted
abbrev loaded : Option String → Bool → Option String × Bool
loaded none encrypted = (none, false)
loaded (some comment) encrypted = (some comment, encrypted)

abbrev encoded : Option (List ℕ) → Option String
encoded none = none
encoded (some bytes) = some (encode_to_string bytes)

absurd : {P : Type 0} (r : Option String × Bool) → r.1 ≡ false → r.1 ≡ true → P
absurd r p q = ground arith

loaded-plain : (o : Option String) → (loaded o false).1 ≡ false
loaded-plain none = refl
loaded-plain (some comment) = refl

module _ (c : Cells) where
  unfoldable pub comment_of : Option (ℕ × c.Slice) → Option String × Bool
  comment_of none = (none, false)
  comment_of (some (sum_type, slice)) =
      if sum_type == encrypted_comment
      then loaded (encoded (c.load_binary_snake slice)) true
      else if sum_type == 0
      then loaded (c.load_string_snake slice) false
      else (none, false)

  unfoldable pub parse_comment_from_payload : String → Option (Option String × Bool)
  unfolding comment_of decode_string
  parse_comment_from_payload payload =
      if str_eq payload "" then some (none, false) else elim (decode_string payload) [
        | none ↦ none
        | some bytes ↦ elim (c.from_boc bytes) [
          | none ↦ none
          | some slice ↦ some (comment_of (c.load_uint slice))
        ]
      ]

  -- An encrypted comment is the text of bytes in base64 that stand behind its prefix.
  pub comment_of-encrypted :
      (o : Option (ℕ × c.Slice))
      → (comment_of o).1 ≡ true
      → (slice : c.Slice) × (bytes : List ℕ) × (o ≡ some (encrypted_comment, slice))
        × (c.load_binary_snake slice ≡ some bytes)
        × ((comment_of o).0 ≡ some (encode_to_string bytes))
  unfolding comment_of
  comment_of-encrypted none h = ground arith
  comment_of-encrypted (some (sum_type, slice)) h =
      elim (Bool-cases (sum_type == encrypted_comment)) [
        | inl e ↦ elim (Option-cases (c.load_binary_snake slice)) [
          | inl n ↦ absurd (loaded none true) refl (rw (e, n) at h)
          | inr (bytes, n) ↦
              let same : sum_type ≡ encrypted_comment = ground arith in
              (slice, bytes, ap (λ k. some (k, slice)) same, n, rw (e, n))
        ]
        | inr e ↦ elim (Bool-cases (sum_type == 0)) [
          | inl z ↦
              absurd (loaded (c.load_string_snake slice) false)
                (loaded-plain (c.load_string_snake slice)) (rw (e, z) at h)
          | inr z ↦ absurd (none, false) refl (rw (e, z) at h)
        ]
      ]
