-- ===== src/Net/Buffer/Slices.antt =====
-- Windows of a vector: reading one, and writing one in place.
use iot_distributed_gateway.Common.{
  ℕ, zero, suc, ◌+◌, ◌-◌, ◌≤◌, ◌≡◌, refl, ap, ◌∙◌, Bytes, [], ◌∷◌, ◌++◌, arith, length, take, drop,
  replicate, length-append, length-take, length-drop, length-replicate, take-append_le,
  drop-append_le, take_all, min, drop-drop,
}

-- `len` bytes from `i` on.
unfoldable pub slice : ℕ → ℕ → Bytes → Bytes
slice i len buf = take len (drop i buf)

-- std::copy into the vector at `i`; what would fall outside is dropped.
unfoldable pub write : ℕ → Bytes → Bytes → Bytes
write i [] buf = buf
write i (x ∷ xs) [] = []
write zero (x ∷ xs) (y ∷ buf) = x ∷ write zero xs buf
write (suc i) (x ∷ xs) (y ∷ buf) = y ∷ write i (x ∷ xs) buf

-- vector::resize: new places are zero.
unfoldable pub resize : ℕ → Bytes → Bytes
resize n buf = take n buf ++ replicate (n - length buf) 0

pub length-write : (i : ℕ) (xs buf : Bytes) → length (write i xs buf) ≡ length buf
unfolding write
length-write i [] buf = refl
length-write i (x ∷ xs) [] = refl
length-write zero (x ∷ xs) (y ∷ buf) = ap suc (length-write zero xs buf)
length-write (suc i) (x ∷ xs) (y ∷ buf) = ap suc (length-write i (x ∷ xs) buf)

pub length-slice : (i len : ℕ) (buf : Bytes) → length (slice i len buf) ≡ min len (length buf - i)
unfolding slice
length-slice i len buf = omega (arith, length-take len (drop i buf), length-drop i buf)

-- Writing at the end of a window extends it.
write_zero : (xs buf : Bytes) → length xs ≤ length buf → take (length xs) (write 0 xs buf) ≡ xs
unfolding write
write_zero [] buf h = refl
write_zero (x ∷ xs) [] h = absurd (omega arith)
write_zero (x ∷ xs) (y ∷ buf) h = ap (◌∷◌ x) (write_zero xs buf (omega arith))

take-write :
    (w m : ℕ) (xs buf : Bytes)
    → w + length xs ≤ length buf
    → m ≡ w + length xs
    → take m (write w xs buf) ≡ take w buf ++ xs
unfolding write
take-write zero m xs buf h e =
    let e' : m ≡ length xs = omega arith in
    ap (λ (k : ℕ). take k (write 0 xs buf)) e' ∙ write_zero xs buf (omega arith)
take-write (suc w) m [] [] h e = absurd (omega arith)
take-write (suc w) m (x ∷ xs) [] h e = absurd (omega arith)
take-write (suc w) zero xs (y ∷ buf) h e = absurd (omega arith)
take-write (suc w) (suc m) [] (y ∷ buf) h e =
    ap (◌∷◌ y) (take-write w m [] buf (omega arith) (omega arith))
take-write (suc w) (suc m) (x ∷ xs) (y ∷ buf) h e =
    ap (◌∷◌ y) (take-write w m (x ∷ xs) buf (omega arith) (omega arith))

pub slice-write_end :
    (r k w m : ℕ) (xs buf : Bytes)
    → w ≡ r + k
    → m ≡ k + length xs
    → w + length xs ≤ length buf
    → slice r m (write w xs buf) ≡ slice r k buf ++ xs
unfolding slice write
slice-write_end zero k w m xs buf e e' h =
    take-write w m xs buf h (omega arith) ∙ ap (λ (n : ℕ). take n buf ++ xs) (omega arith)
slice-write_end (suc r) k zero m xs buf e e' h = absurd (omega arith)
slice-write_end (suc r) k (suc w) m xs [] e e' h = absurd (omega arith)
slice-write_end (suc r) k (suc w) m [] (y ∷ buf) e e' h =
    slice-write_end r k w m [] buf (omega arith) e' (omega arith)
slice-write_end (suc r) k (suc w) m (x ∷ xs) (y ∷ buf) e e' h =
    slice-write_end r k w m (x ∷ xs) buf (omega arith) e' (omega arith)

-- Writing in front of a window extends it the other way.
write_front :
    (m k : ℕ) (xs buf : Bytes)
    → m ≡ length xs + k
    → length xs ≤ length buf
    → take m (write 0 xs buf) ≡ xs ++ take k (drop (length xs) buf)
unfolding write
write_front m k [] buf e h = ap (λ (n : ℕ). take n buf) (omega arith)
write_front m k (x ∷ xs) [] e h = absurd (omega arith)
write_front zero k (x ∷ xs) (y ∷ buf) e h = absurd (omega arith)
write_front (suc m) k (x ∷ xs) (y ∷ buf) e h =
    ap (◌∷◌ x) (write_front m k xs buf (omega arith) (omega arith))

pub slice-write_front :
    (i r m k : ℕ) (xs buf : Bytes)
    → r ≡ i + length xs
    → m ≡ length xs + k
    → r ≤ length buf
    → slice i m (write i xs buf) ≡ xs ++ slice r k buf
unfolding slice write
slice-write_front zero r m k xs buf e e' h =
    write_front m k xs buf e' (omega arith)
    ∙ ap (λ (n : ℕ). xs ++ take k (drop n buf)) (omega arith)
slice-write_front (suc i) zero m k xs buf e e' h = absurd (omega arith)
slice-write_front (suc i) (suc r) m k xs [] e e' h = absurd (omega arith)
slice-write_front (suc i) (suc r) m k [] (y ∷ buf) e e' h =
    slice-write_front i r m k [] buf (omega arith) e' (omega arith)
slice-write_front (suc i) (suc r) m k (x ∷ xs) (y ∷ buf) e e' h =
    slice-write_front i r m k (x ∷ xs) buf (omega arith) e' (omega arith)

pub slice-write_self :
    (i m : ℕ) (xs buf : Bytes)
    → m ≡ length xs
    → i + length xs ≤ length buf
    → slice i m (write i xs buf) ≡ xs
slice-write_self i m xs buf e h =
    slice-write_end i 0 i m xs buf (omega arith) (omega arith) h ∙ (unfold slice in refl)

pub slice-resize :
    (r k n : ℕ) (buf : Bytes)
    → r + k ≤ length buf
    → length buf ≤ n
    → slice r k (resize n buf) ≡ slice r k buf
unfolding slice resize
slice-resize r k n buf h h' =
    ap (λ (t : Bytes). take k (drop r (t ++ replicate (n - length buf) 0))) (take_all n buf h')
    ∙ ap (take k) (drop-append_le r buf (replicate (n - length buf) 0) (omega arith))
    ∙ take-append_le k (drop r buf) (replicate (n - length buf) 0)
        (omega (arith, length-drop r buf))

pub length-resize : (n : ℕ) (buf : Bytes) → length (resize n buf) ≡ n
unfolding resize
length-resize n buf = omega (
  arith,
  length-append (take n buf) (replicate (n - length buf) 0),
  length-take n buf,
  length-replicate {0} (n - length buf) (let z : ℕ = 0 in z),
)

drop-take : (len k m : ℕ) (xs : Bytes) → m ≡ len + k → drop len (take m xs) ≡ take k (drop len xs)
drop-take zero k m xs e = ap (λ (n : ℕ). take n xs) (omega arith)
drop-take (suc len) k zero xs e = absurd (omega arith)
drop-take (suc len) zero (suc m) [] e = refl
drop-take (suc len) (suc k) (suc m) [] e = refl
drop-take (suc len) k (suc m) (x ∷ xs) e = drop-take len k m xs (omega arith)

-- A window without its first `len` bytes.
pub drop-slice :
    (r len k m : ℕ) (buf : Bytes) → m ≡ len + k → drop len (slice r m buf) ≡ slice (r + len) k buf
unfolding slice
drop-slice r len k m buf e = drop-take len k m (drop r buf) e ∙ ap (take k) (drop-drop len r buf)

take-take : (n m : ℕ) (xs : Bytes) → n ≤ m → take n (take m xs) ≡ take n xs
take-take zero m xs h = refl
take-take (suc n) zero xs h = absurd (omega arith)
take-take (suc n) (suc m) [] h = refl
take-take (suc n) (suc m) (x ∷ xs) h = ap (◌∷◌ x) (take-take n m xs (omega arith))

-- The first bytes of a window.
pub take-slice : (r n m : ℕ) (buf : Bytes) → n ≤ m → take n (slice r m buf) ≡ slice r n buf
unfolding slice
take-slice r n m buf h = take-take n m (drop r buf) h
