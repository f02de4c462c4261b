-- ===== src/Backend/Key/Sha/Schedule.antt =====
-- The words of the message schedule, from backend/bispe_sha.c's second loop that builds `w`.
use bispe.Base.{
  ℕ, zero, suc, ◌+◌, ◌-◌, ◌%◌, ◌^◌, ◌≤◌, ◌<◌, ◌≡◌, refl, sym, ap, ◌∙◌, List, [], ◌∷◌, ◌++◌, length,
  length-append, get_elem?, none, some, arith,
}
use native.Mathlib.Decide.{ℕ_discrete}
use bispe.Backend.Key.Sha.Fips.{lower_sigma0, lower_sigma1}
use bispe.Backend.Key.Sha.Functions.{small_sigma0-lower_sigma0, small_sigma1-lower_sigma1}
use bispe.Backend.Key.Sha.{add32, small_sigma0, small_sigma1, extend, at}

get_elem?-prefix :
    {A : Type 0} (xs ys : List A) (i : ℕ) → i < length xs → get_elem? (xs ++ ys) i ≡ get_elem? xs i
get_elem?-prefix [] ys i h = absurd (omega arith)
get_elem?-prefix (x ∷ xs) ys zero h = refl
get_elem?-prefix (x ∷ xs) ys (suc i) h = get_elem?-prefix xs ys i (omega arith)

get_elem?-last : (xs : List ℕ) (y : ℕ) → at (xs ++ y ∷ []) (length xs) ≡ y
get_elem?-last [] y = refl
get_elem?-last (x ∷ xs) y = get_elem?-last xs y

-- A word from the words before it, as the standard adds them.
abbrev pub scheduled : List ℕ → ℕ → ℕ
scheduled w t =
    (lower_sigma1 (at w (t - 2)) + at w (t - 7) + lower_sigma0 (at w (t - 15)) + at w (t - 16))
    % 2 ^ 32

-- The message schedule of a block.
pub record IsSchedule (block w : List ℕ) : Type 0 where
  pub size : length w ≡ 64
  pub first : (t : ℕ) → t < 16 → at w t ≡ at block t
  pub later : (t : ℕ) → 16 ≤ t → t < 64 → at w t ≡ scheduled w t

extend-length : (n : ℕ) (w : List ℕ) → length (extend n w) ≡ n + length w
unfolding extend
extend-length zero w = omega arith
extend-length (suc n) w = omega (arith, extend-length n (w ++ _ ∷ []), length-append w (_ ∷ []))

at-prefix : (xs ys : List ℕ) (i : ℕ) → i < length xs → at (xs ++ ys) i ≡ at xs i
at-prefix xs ys i h = ap (λ o. elim o [ none ↦ 0 | some x ↦ x ]) (get_elem?-prefix xs ys i h)

-- The next word that the loop computes.
abbrev next : List ℕ → ℕ
next w =
    let i = length w in
    add32 (add32 (add32 (at w (i - 16)) (small_sigma0 (at w (i - 15)))) (at w (i - 7)))
      (small_sigma1 (at w (i - 2)))

extend-suc : (n : ℕ) (w : List ℕ) → extend (suc n) w ≡ extend n (w ++ next w ∷ [])
unfolding extend
extend-suc n w = refl

at-extend : (n : ℕ) (w : List ℕ) (t : ℕ) → t < length w → at (extend n w) t ≡ at w t
unfolding extend
at-extend zero w t h = refl
at-extend (suc n) w t h =
    let more : length (w ++ next w ∷ []) ≡ length w + 1 = length-append w (next w ∷ []) in
    ap (λ v. at v t) (extend-suc n w)
    ∙ (at-extend n (w ++ next w ∷ []) t (omega arith) ∙ at-prefix w (next w ∷ []) t h)

next-scheduled :
    (w v : List ℕ) (t : ℕ)
    → t ≡ length w
    → 16 ≤ t
    → ((i : ℕ) → i < t → at v i ≡ at w i)
    → next w ≡ scheduled v t
next-scheduled w v t e h same =
    let e2 : at v (t - 2) ≡ at w (length w - 2) =
      same (t - 2) (omega arith) ∙ ap (λ i. at w (i - 2)) e in
    let e7 : at v (t - 7) ≡ at w (length w - 7) =
      same (t - 7) (omega arith) ∙ ap (λ i. at w (i - 7)) e in
    let e15 : at v (t - 15) ≡ at w (length w - 15) =
      same (t - 15) (omega arith) ∙ ap (λ i. at w (i - 15)) e in
    let e16 : at v (t - 16) ≡ at w (length w - 16) =
      same (t - 16) (omega arith) ∙ ap (λ i. at w (i - 16)) e in
    let one : small_sigma1 (at w (length w - 2)) ≡ lower_sigma1 (at w (length w - 2)) =
      small_sigma1-lower_sigma1 (at w (length w - 2)) in
    let two : small_sigma0 (at w (length w - 15)) ≡ lower_sigma0 (at w (length w - 15)) =
      small_sigma0-lower_sigma0 (at w (length w - 15)) in
    rw e2 (rw e7 (rw e15 (rw e16 (omega (arith, one, two)))))

extend-scheduled :
    (n : ℕ) (w : List ℕ) (t : ℕ)
    → 16 ≤ length w
    → length w ≤ t
    → t < n + length w
    → at (extend n w) t ≡ scheduled (extend n w) t
extend-scheduled zero w t h l m = absurd (omega arith)
extend-scheduled (suc n) w t h l m =
    let more : length (w ++ next w ∷ []) ≡ length w + 1 = length-append w (next w ∷ []) in
    let known : (i : ℕ) → i < length w + 1 → at (extend (suc n) w) i ≡ at (w ++ next w ∷ []) i =
      λ i k. ap (λ v. at v i) (extend-suc n w) ∙ at-extend n (w ++ next w ∷ []) i (omega arith) in
    elim (ℕ_discrete t (length w)) [
      | yes e ↦
          ap (at (extend (suc n) w)) e
          ∙ (known (length w) (omega arith)
              ∙ (get_elem?-last w (next w)
                  ∙ next-scheduled w (extend (suc n) w) t e (omega arith)
                      (λ i k. known i (omega arith) ∙ at-prefix w (next w ∷ []) i (omega arith))))
      | no d ↦
          ap (λ v. at v t) (extend-suc n w)
          ∙ (extend-scheduled n (w ++ next w ∷ []) t (omega arith) (omega arith) (omega arith)
              ∙ ap (λ v. scheduled v t) (sym (extend-suc n w)))
    ]

pub extend-IsSchedule : (block : List ℕ) → length block ≡ 16 → IsSchedule block (extend 48 block)
extend-IsSchedule block h = record {
  size = omega (arith, extend-length 48 block);
  first = λ t k. at-extend 48 block t (omega arith);
  later = λ t k l. extend-scheduled 48 block t (omega arith) (omega arith) (omega arith);
}
