-- ===== src/Prelude/Text.antt =====
-- The functions of Go's `strings` package that the program calls, over code points.
use Prim.Native.Nat.{ℕ, ◌+◌}
use Prim.Native.Char.{Char, code}
use Prim.Native.String
use Prim.Native.String.{String}
use mathlib.Core.Path.{◌≡◌, refl, ap, sym, ◌∙◌}
use mathlib.Core.Logic.{inl, inr}
use mathlib.Core.Bool.{Bool, true, false, ◌||◌, ◌&&◌}
use mathlib.Core.List.{List, [], ◌∷◌, ◌++◌, append-nil}
use mathlib.Core.Option.{Option, none, some}
use native.Mathlib.Omega.{arith}
use text.Mathlib.TextLemmas.{nil-append, cons-append}
use text.Mathlib.TextEquality.{Char-path}
use iroum_ax.Prelude.Tests.{if◌then◌else◌, leb, ltb, Bool-cases}

abbrev pub eqb : ℕ → ℕ → Bool
eqb a b = leb a b && leb b a

-- `unicode.IsSpace`.
unfoldable pub is_space : Char → Bool
is_space c =
    let n = code c in
    leb 9 n && leb n 13
    || eqb n 32
    || eqb n 0x85
    || eqb n 0xa0
    || eqb n 0x1680
    || leb 0x2000 n && leb n 0x200a
    || eqb n 0x2028
    || eqb n 0x2029
    || eqb n 0x202f
    || eqb n 0x205f
    || eqb n 0x3000

-- A word is kept if it is not empty.
abbrev keep : String → List String → List String
keep String.[] words = words
keep (String.◌∷◌ c s) words = String.◌∷◌ c s ∷ words

-- The word that a text begins with, which is empty if the text begins with a space, and the words
-- behind it.
words : String → String × List String
words String.[] = ("", [])
words (String.◌∷◌ c s) =
    let (word, more) = words s in
    if is_space c then ("", keep word more) else (String.◌∷◌ c word, more)

-- `strings.Fields`.
unfoldable pub fields : String → List String
unfolding words is_space
fields s = let (word, more) = words s in keep word more

-- The bytes of a code point in UTF-8.
abbrev code_length : ℕ → ℕ
code_length n = if ltb n 128 then 1 else if ltb n 2048 then 2 else if ltb n 65536 then 3 else 4

-- `len` of a text.
unfoldable pub byte_length : String → ℕ
byte_length String.[] = 0
byte_length (String.◌∷◌ c s) = code_length (code c) + byte_length s

trim_left : String → String
trim_left String.[] = ""
trim_left (String.◌∷◌ c s) = if is_space c then trim_left s else String.◌∷◌ c s

-- A space goes if all behind it goes.
abbrev trim_char : Char → String → String
trim_char c String.[] = if is_space c then "" else String.◌∷◌ c ""
trim_char c (String.◌∷◌ d s) = String.◌∷◌ c (String.◌∷◌ d s)

trim_right : String → String
trim_right String.[] = ""
trim_right (String.◌∷◌ c s) = trim_char c (trim_right s)

-- `strings.TrimSpace`.
unfoldable pub trim_space : String → String
unfolding trim_left trim_right is_space
trim_space s = trim_right (trim_left s)

-- `strings.Join(texts, " ")`.
unfoldable pub join_spaced : List String → String
join_spaced [] = ""
join_spaced (s ∷ []) = s
join_spaced (s ∷ rest) = String.◌++◌ s (String.◌∷◌ " " (join_spaced rest))

-- `strings.HasPrefix`.
unfoldable pub has_prefix : String → String → Bool
has_prefix s String.[] = true
has_prefix String.[] (String.◌∷◌ d t) = false
has_prefix (String.◌∷◌ c s) (String.◌∷◌ d t) = eqb (code c) (code d) && has_prefix s t

-- `strings.CutPrefix`, with `none` for a text that lacks the prefix.
unfoldable pub cut_prefix : String → String → Option String
cut_prefix s String.[] = some s
cut_prefix String.[] (String.◌∷◌ d t) = none
cut_prefix (String.◌∷◌ c s) (String.◌∷◌ d t) =
    if eqb (code c) (code d) then cut_prefix s t else none

abbrev add_char : Char → Option String → Option String
add_char c none = none
add_char c (some s) = some (String.◌∷◌ c s)

-- The first part of `strings.SplitN(s, ".", 3)`, none where it is the only one.
unfoldable pub before_dot : String → Option String
before_dot String.[] = none
before_dot (String.◌∷◌ c s) = if eqb (code c) 46 then some "" else add_char c (before_dot s)

pub fields-nil : fields "" ≡ []
unfolding fields
fields-nil = refl

keep-append : (w : String) (xs ys : List String) → keep w (xs ++ ys) ≡ keep w xs ++ ys
keep-append String.[] xs ys = refl
keep-append (String.◌∷◌ c w) xs ys = refl

words-append :
    (s t : String)
    → words (String.◌++◌ s (String.◌∷◌ " " t)) ≡ ((words s).0, (words s).1 ++ fields t)
unfolding fields
words-append String.[] t = rw nil-append
words-append (String.◌∷◌ c s) t = elim (Bool-cases (is_space c)) [
  | inl space ↦
      rw (cons-append, space, words-append s t)
        (ap (λ (l : List String). ("", l)) (keep-append (words s).0 (words s).1 (fields t)))
  | inr letter ↦ rw (cons-append, letter, words-append s t)
]

-- A space between two texts separates their words.
pub fields-append :
    (s t : String) → fields (String.◌++◌ s (String.◌∷◌ " " t)) ≡ fields s ++ fields t
unfolding fields
fields-append s t = rw (words-append s t) (keep-append (words s).0 (words s).1 (fields t))

abbrev pub all_fields : List String → List String
all_fields [] = []
all_fields (s ∷ rest) = fields s ++ all_fields rest

-- The words of joined texts are the words of each.
pub fields-join_spaced : (texts : List String) → fields (join_spaced texts) ≡ all_fields texts
unfolding join_spaced
fields-join_spaced [] = fields-nil
fields-join_spaced (s ∷ []) = sym (append-nil (fields s))
fields-join_spaced (s ∷ t ∷ rest) =
    fields-append s (join_spaced (t ∷ rest))
    ∙ ap (λ l. fields s ++ l) (fields-join_spaced (t ∷ rest))

trim_space_example : trim_space " \tan id " ≡ "an id"
unfolding trim_space
trim_space_example = refl

fields_example : fields "  openid\tiroum-ax:admin " ≡ "openid" ∷ "iroum-ax:admin" ∷ []
unfolding fields
fields_example = refl

eqb-code : (c d : Char) → eqb (code c) (code d) ≡ true → c ≡ d
eqb-code c d h = Char-path c d (ground arith)

eqb_refl : (n : ℕ) → eqb n n ≡ true
eqb_refl n = ground arith

pub cut_prefix-append : (p t : String) → cut_prefix (String.◌++◌ p t) p ≡ some t
unfolding cut_prefix
cut_prefix-append String.[] t = ap some (nil-append t)
cut_prefix-append (String.◌∷◌ c p) t = rw (cons-append, eqb_refl) (cut_prefix-append p t)

pub cut_prefix_lem : (s p t : String) → cut_prefix s p ≡ some t → s ≡ String.◌++◌ p t
unfolding cut_prefix
cut_prefix_lem s String.[] t h = cc h ∙ sym (nil-append t)
cut_prefix_lem String.[] (String.◌∷◌ d p) t h = absurd (cc h)
cut_prefix_lem (String.◌∷◌ c s) (String.◌∷◌ d p) t h = elim (Bool-cases (eqb (code c) (code d))) [
  | inl same ↦
      let rest : s ≡ String.◌++◌ p t = cut_prefix_lem s p t (rw same at h) in
      rw (cons-append, eqb-code c d same, rest)
  | inr other ↦ absurd (cc (rw other at h))
]
