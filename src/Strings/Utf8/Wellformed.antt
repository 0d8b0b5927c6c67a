-- ===== src/Strings/Utf8/Wellformed.antt =====
-- The strict decoder reads back what `encode_utf8` writes.
use rusty_v.Base.{
  ℕ, ◌≡◌, refl, ap, List, [], ◌∷◌, ◌++◌, append_assoc, some, All, arith, ◌<◌, ◌≤◌, length, ◌∙◌,
}
use rusty_v.Strings.Utf8.{IsScalar, encode_utf8, utf8, decode_utf8, decode_from, start, prepend}

decode_from-encode :
    (c : ℕ) (rest : List ℕ)
    → IsScalar c
    → decode_from start (encode_utf8 c ++ rest) ≡ prepend (c ∷ []) (decode_from start rest)
unfolding decode_from encode_utf8
decode_from-encode c rest h = ground arith

pub decode_utf8-utf8 : (cs : List ℕ) → All IsScalar cs → decode_utf8 (utf8 cs) ≡ some cs
unfolding decode_utf8 utf8 prepend
decode_utf8-utf8 [] h = unfold decode_from in refl
decode_utf8-utf8 (c ∷ cs) h =
    decode_from-encode c (utf8 cs) h.0 ∙ ap (prepend (c ∷ [])) (decode_utf8-utf8 cs h.1)

abbrev pub IsByte : ℕ → Type 0
IsByte b = b < 256

abbrev pub AllBytes : List ℕ → Type 0
AllBytes = All IsByte

pub encode_utf8-length : (c : ℕ) → (1 ≤ length (encode_utf8 c)) × (length (encode_utf8 c) ≤ 4)
unfolding encode_utf8
encode_utf8-length c = ground arith

pub utf8-append : (cs ds : List ℕ) → utf8 (cs ++ ds) ≡ utf8 cs ++ utf8 ds
unfolding utf8
utf8-append [] ds = refl
utf8-append (c ∷ cs) ds = simp (utf8-append cs ds, append_assoc)
