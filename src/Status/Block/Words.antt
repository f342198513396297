-- ===== src/Status/Block/Words.antt =====
-- src/companion/steam_reporting_status_v3.cpp: `StoreWords` and `LoadWords`, word by word.
use rs2server_fix.Base.{
  ℕ, zero, suc, ◌≤◌, ◌<◌, ◌≡◌, refl, ap, List, [], ◌∷◌, ◌++◌, length, take, arith,
}
use rs2server_fix.Status.Block.{word, put, zeros}

pub length-put : (k v : ℕ) (ws : List ℕ) → length (put k v ws) ≡ length ws
unfolding put
length-put k v [] = refl
length-put zero v (x ∷ xs) = refl
length-put (suc k) v (x ∷ xs) = omega (arith, length-put k v xs)

pub length-zeros : (n : ℕ) → length (zeros n) ≡ n
unfolding zeros
length-zeros zero = refl
length-zeros (suc n) = omega (arith, length-zeros n)

tail_eq : {x y : ℕ} {xs ys : List ℕ} → x ∷ xs ≡ y ∷ ys → (x ≡ y) × (xs ≡ ys)
tail_eq h = (cc, cc)

-- One more word of the payload is stored.
pub take-put :
    (k : ℕ) (ws p : List ℕ)
    → take k ws ≡ take k p
    → k < length ws
    → k < length p
    → take (suc k) (put k (word p k) ws) ≡ take (suc k) p
unfolding put word
take-put zero [] p h a b = absurd (omega (arith, a))
take-put zero (x ∷ xs) [] h a b = absurd (omega (arith, b))
take-put zero (x ∷ xs) (y ∷ ys) h a b = refl
take-put (suc k) [] p h a b = absurd (omega (arith, a))
take-put (suc k) (x ∷ xs) [] h a b = absurd (omega (arith, b))
take-put (suc k) (x ∷ xs) (y ∷ ys) h a b =
    let e = tail_eq h in
    let rest = take-put k xs ys e.1 (omega (arith, a)) (omega (arith, b)) in rw (e.0, rest) refl

-- One more word of the block is copied.
pub take_next :
    (k : ℕ) (ws : List ℕ) → k < length ws → take k ws ++ word ws k ∷ [] ≡ take (suc k) ws
unfolding word
take_next zero [] h = absurd (omega (arith, h))
take_next zero (x ∷ xs) h = refl
take_next (suc k) [] h = absurd (omega (arith, h))
take_next (suc k) (x ∷ xs) h = ap (λ l. x ∷ l) (take_next k xs (omega (arith, h)))

pub take_all : (ws : List ℕ) (n : ℕ) → length ws ≤ n → take n ws ≡ ws
take_all [] zero h = refl
take_all [] (suc n) h = refl
take_all (x ∷ xs) zero h = absurd (omega (arith, h))
take_all (x ∷ xs) (suc n) h = ap (λ l. x ∷ l) (take_all xs n (omega (arith, h)))
