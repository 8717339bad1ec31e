-- ===== src/PeerManager/Counts.antt =====
-- How the counts of peers move when the list of peers (src/PeerManager.cpp) changes.
use clipp.Prelude.{
  ℕ, zero, suc, ◌+◌, ◌≤◌, ◌<◌, ◌≡◌, refl, ap, subst, not, Option, none, some, Bool, true, false,
  List, [], ◌∷◌, ◌++◌, map, keep_if, count_if, any_of, if◌then◌else◌, arith,
}
use clipp.PeerManager.{Peer}
use clipp.PeerManager.Events.{change_at, peer_at}

module _ {ℓ} {A : Type ℓ} (p : A → Bool) where
  pub count_if-append :
      (xs : List A) (x : A) → count_if p (xs ++ x ∷ []) ≡ count_if p xs + (if p x then 1 else 0)
  unfolding count_if
  count_if-append [] x = ground arith
  count_if-append (y ∷ ys) x = ground (arith, count_if-append ys x)

  pub count_if-keep_if : (q : A → Bool) (xs : List A) → count_if p (keep_if q xs) ≤ count_if p xs
  unfolding count_if keep_if
  count_if-keep_if q [] = omega arith
  count_if-keep_if q (x ∷ xs) = ground (arith, count_if-keep_if q xs)

  pub any_of-none : (xs : List A) → any_of p xs ≡ false → count_if p xs ≡ 0
  unfolding count_if any_of
  any_of-none [] e = refl
  any_of-none (x ∷ xs) e = ground (arith, any_of-none xs)

  pub any_of-count_if : (xs : List A) → any_of p xs ≡ true → 0 < count_if p xs
  unfolding count_if any_of
  any_of-count_if [] e = ground arith
  any_of-count_if (x ∷ xs) e = ground (arith, any_of-count_if xs)

  pub count_if-map :
      (f : A → A)
      → ((x : A) → p (f x) ≡ true → p x ≡ true)
      → (xs : List A) → count_if p (map f xs) ≤ count_if p xs
  unfolding count_if
  count_if-map f h [] = omega arith
  count_if-map f h (x ∷ xs) = ground (arith, h x, count_if-map f h xs)

pub count_if-change_at :
    (p : Peer → Bool) (f : Peer → Peer)
    → ((x : Peer) → p (f x) ≡ true → p x ≡ true)
    → (i : ℕ) (xs : List Peer) → count_if p (change_at i f xs) ≤ count_if p xs
unfolding count_if change_at
count_if-change_at p f h zero [] = omega arith
count_if-change_at p f h (suc i) [] = omega arith
count_if-change_at p f h zero (x ∷ xs) = ground (arith, h x)
count_if-change_at p f h (suc i) (x ∷ xs) = ground (arith, count_if-change_at p f h i xs)

found_or : Peer → Option Peer → Peer
found_or x none = x
found_or x (some y) = y

same_peer : (x y : Peer) → some x ≡ some y → x ≡ y
unfolding found_or
same_peer x y h = ap (found_or x) h

module _ (p : Peer → Bool) (f : Peer → Peer) where
  -- A change that the test does not notice.
  pub count_if-unnoticed :
      ((x : Peer) → p (f x) ≡ p x)
      → (i : ℕ) (xs : List Peer) → count_if p (change_at i f xs) ≡ count_if p xs
  unfolding count_if change_at
  count_if-unnoticed h zero [] = refl
  count_if-unnoticed h (suc i) [] = refl
  count_if-unnoticed h zero (x ∷ xs) = ground (arith, h x)
  count_if-unnoticed h (suc i) (x ∷ xs) = ground (arith, count_if-unnoticed h i xs)

  pub count_if-map_unnoticed :
      ((x : Peer) → p (f x) ≡ p x) → (xs : List Peer) → count_if p (map f xs) ≡ count_if p xs
  unfolding count_if
  count_if-map_unnoticed h [] = refl
  count_if-map_unnoticed h (x ∷ xs) = ground (arith, h x, count_if-map_unnoticed h xs)

  -- A change of the peer at a position moves its own share of the count.
  pub count_if-changed :
      (i : ℕ) (xs : List Peer) (x : Peer)
      → peer_at i xs ≡ some x
      → count_if p (change_at i f xs) + (if p x then 1 else 0)
        ≡ count_if p xs + (if p (f x) then 1 else 0)
  unfolding count_if change_at peer_at
  count_if-changed zero [] x h = ground arith
  count_if-changed (suc i) [] x h = ground arith
  count_if-changed zero (y ∷ ys) x h =
      subst
        (λ z.
          count_if p (f y ∷ ys) + (if p z then 1 else 0)
          ≡ count_if p (y ∷ ys) + (if p (f z) then 1 else 0))
        (same_peer y x h) (ground arith)
  count_if-changed (suc i) (y ∷ ys) x h = ground (arith, count_if-changed i ys x h)

pub peer_at-change_at :
    (f : Peer → Peer) (i : ℕ) (xs : List Peer) (x : Peer)
    → peer_at i xs ≡ some x
    → peer_at i (change_at i f xs) ≡ some (f x)
unfolding peer_at change_at
peer_at-change_at f zero [] x h = ground arith
peer_at-change_at f (suc i) [] x h = ground arith
peer_at-change_at f zero (y ∷ ys) x h = ap (λ z. some (f z)) (same_peer y x h)
peer_at-change_at f (suc i) (y ∷ ys) x h = peer_at-change_at f i ys x h

-- What is kept and what is not make up the whole.
pub count_if-kept {ℓ} :
    {A : Type ℓ} (p gone : A → Bool) (xs : List A)
    → count_if p (keep_if (λ x. not (gone x)) xs) + count_if p (keep_if gone xs) ≡ count_if p xs
unfolding count_if keep_if
count_if-kept p gone [] = refl
count_if-kept p gone (x ∷ xs) = ground (arith, count_if-kept p gone xs)
