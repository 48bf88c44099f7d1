-- ===== src/Net/Buffer/Lines.antt =====
-- Buffer::findCRLF: the first line end among the readable bytes.
use iot_distributed_gateway.Common.{
  ℕ, suc, ◌≡◌, refl, ap, ◌∙◌, Bytes, [], ◌∷◌, ◌++◌, Option, none, some, arith, ◌==◌, length,
  if◌then◌else◌, ◌&&◌, Bool, true, false, ◌⊎◌, inl, inr, Option-cases, Bool-cases,
}
use iot_distributed_gateway.Net.Buffer.{Buffer, view}
use mathlib.Core.Option

abbrev starts_crlf : Bytes → Bool
starts_crlf [] = false
starts_crlf (x ∷ []) = false
starts_crlf (x ∷ y ∷ xs) = x == 13 && y == 10

-- std::search for "\r\n": how far it stands from the front.
unfoldable pub search_crlf : Bytes → Option ℕ
search_crlf [] = none
search_crlf (x ∷ xs) = if starts_crlf (x ∷ xs) then some 0 else Option.map suc (search_crlf xs)

-- The offset of the line end from peek().
unfoldable pub find_crlf : Buffer → Option ℕ
unfolding search_crlf
find_crlf b = search_crlf (view b)

-- No line end in a text.
abbrev pub HasNoCrlf : Bytes → Type 0
HasNoCrlf [] = Unit {0}
HasNoCrlf (x ∷ xs) = (starts_crlf (x ∷ xs) ≡ false) × HasNoCrlf xs

crlf_here : (xs : Bytes) → starts_crlf xs ≡ true → (post : Bytes) × (xs ≡ 13 ∷ 10 ∷ post)
crlf_here [] h = cc
crlf_here (x ∷ []) h = cc
crlf_here (x ∷ y ∷ xs) h = (xs, ground arith)

-- Where a line end is found, it stands at the offset and there is none in front of it.
abbrev pub FirstCrlf : Bytes → ℕ → Type 0
FirstCrlf xs k =
    (pre : Bytes) × (post : Bytes) × (xs ≡ pre ++ 13 ∷ 10 ∷ post)
    × (length pre ≡ k)
    × HasNoCrlf (pre ++ 13 ∷ [])

no_crlf_cons :
    (x y : ℕ) (ys pre post : Bytes)
    → starts_crlf (x ∷ ys) ≡ false
    → ys ≡ pre ++ 13 ∷ 10 ∷ post
    → starts_crlf (x ∷ (pre ++ 13 ∷ [])) ≡ false
no_crlf_cons x y ys [] post h e = ground arith
no_crlf_cons x y ys (p ∷ pre) post h e = rw e at h

bump : {j k : ℕ} (o : Option ℕ) → o ≡ some j → Option.map suc o ≡ some k → suc j ≡ k
bump none e f = cc
bump (some n) e f = cc

search_crlf_found : (xs : Bytes) (k : ℕ) → search_crlf xs ≡ some k → FirstCrlf xs k
unfolding search_crlf
search_crlf_found [] k e = cc
search_crlf_found (x ∷ xs) k e = elim (Bool-cases (starts_crlf (x ∷ xs))) [
  | inl here ↦ let (post, p) = crlf_here (x ∷ xs) here in ([], post, p, ground arith, (refl, tt))
  | inr later ↦ elim (Option-cases (search_crlf xs)) [
    | inl n ↦ absurd (cc (rw (later, n) at e))
    | inr (j, s) ↦
        let (pre, post, p, l, c) = search_crlf_found xs j s in
        (
          x ∷ pre,
          post,
          rw p refl,
          ap suc l ∙ bump (search_crlf xs) s (rw later at e),
          (no_crlf_cons x 0 xs pre post later p, c),
        )
  ]
]

rest : (o : Option ℕ) → Option.map suc o ≡ none → o ≡ none
rest none e = refl
rest (some n) e = cc

search_crlf_missing : (xs : Bytes) → search_crlf xs ≡ none → HasNoCrlf xs
unfolding search_crlf
search_crlf_missing [] e = tt
search_crlf_missing (x ∷ xs) e = elim (Bool-cases (starts_crlf (x ∷ xs))) [
  | inl here ↦ absurd (cc (rw here at e))
  | inr later ↦ (later, search_crlf_missing xs (rest (search_crlf xs) (rw later at e)))
]

-- findCRLF answers the offset of the first line end among the readable bytes, and nullptr exactly
-- where there is none.
find_crlf-FirstCrlf :
    (b : Buffer)
    → ((k : ℕ) × (find_crlf b ≡ some k) × FirstCrlf (view b) k)
      ⊎ ((find_crlf b ≡ none) × HasNoCrlf (view b))
unfolding find_crlf
find_crlf-FirstCrlf b = elim (Option-cases (search_crlf (view b))) [
  | inl e ↦ inr (e, search_crlf_missing (view b) e)
  | inr (k, e) ↦ inl (k, e, search_crlf_found (view b) k e)
]
