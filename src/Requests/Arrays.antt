-- ===== src/Requests/Arrays.antt =====
-- The loops over arrays, as functions on lists.
use mpif.Prelude.{
  take-all, ap, ◌∙◌, ℕ, zero, suc, ◌≤◌, ◌≡◌, refl, ap, ◌∙◌, List, [], ◌∷◌, ◌++◌, map, arith, length,
  take, drop,
}
use mpif.Prelude.Int.{ℤ}
use mpif.Machine.{ok}
use mpif.Requests.{convert_array, write_array, succ, increment}

module _ {ℓ κ} {A : Type ℓ} {B : Type κ} where
  pub convert_array-map :
      (convert : A → B) (array : List A) (n : ℕ)
      → n ≤ length array
      → convert_array convert array n ≡ ok (map convert (take n array))
  unfolding convert_array
  convert_array-map convert array zero within = refl
  convert_array-map convert [] (suc n) within = absurd (omega arith)
  convert_array-map convert (a ∷ array) (suc n) within =
      rw (convert_array-map convert array n (omega arith)) refl

  pub write_array-take :
      (convert : B → A) (array : List A) (c_array : List B) (n : ℕ)
      → n ≤ length array
      → n ≤ length c_array
      → write_array convert array c_array n ≡ ok (map convert (take n c_array) ++ drop n array)
  unfolding write_array
  write_array-take convert array c_array zero within enough = refl
  write_array-take convert [] c_array (suc n) within enough = absurd (omega arith)
  write_array-take convert (a ∷ array) [] (suc n) within enough = absurd (omega arith)
  write_array-take convert (a ∷ array) (b ∷ c_array) (suc n) within enough =
      rw (write_array-take convert array c_array n (omega arith) (omega arith)) refl

  -- The elements behind the rounds stay.
  pub write_array-map :
      (convert : B → A) (array : List A) (c_array : List B) (n : ℕ)
      → n ≤ length array
      → length c_array ≡ n
      → write_array convert array c_array n ≡ ok (map convert c_array ++ drop n array)
  write_array-map convert array c_array n within all =
      write_array-take convert array c_array n within (omega (arith, all))
      ∙ ap (λ l. ok (map convert l ++ drop n array)) (take-all n c_array (omega (arith, all)))

pub increment-map :
    (indices : List ℤ) (n : ℕ)
    → n ≤ length indices
    → increment indices n ≡ ok (map succ (take n indices) ++ drop n indices)
unfolding increment
increment-map indices zero within = refl
increment-map [] (suc n) within = absurd (omega arith)
increment-map (i ∷ indices) (suc n) within = rw (increment-map indices n (omega arith)) refl
