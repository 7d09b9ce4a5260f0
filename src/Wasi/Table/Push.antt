-- ===== src/Wasi/Table/Push.antt =====
-- `push` always finds a free key: the keys that it tries are distinct, and an entry holds one key.
use mathlib.Core.Option.{some-injective}
use mathlib.Core.Path.{subst}
use bls_runtime.Prelude.{
  ℕ, zero, suc, ◌+◌, ◌%◌, ◌≤◌, ◌<◌, ◌≡◌, ◌≢◌, refl, true, false, none, some, List, [], ◌∷◌, arith,
  ◌==◌, if◌then◌else◌, length, All, u32_max, u32_mod, Bool-cases, Option-cases, inl, inr,
}
use bls_runtime.Prelude.Assoc.{
  Assoc, nat_eq, lookup, remove, has_key, has_key-remove, has_key-lookup, length-remove-lt,
  lookup-insert,
}
use bls_runtime.Wasi.Errno.{trap, ok, err}
use bls_runtime.Wasi.Table.{Arc, Inner, insert_at, advanced, push_loop, push}

-- The keys that `n` rounds of the loop try, from `k` on.
abbrev tried : ℕ → ℕ → List ℕ
tried zero k = []
tried (suc n) k = k ∷ tried n ((k + 1) % u32_mod)

tried-ne :
    (n d k : ℕ)
    → 1 ≤ d
    → d + n ≤ u32_mod
    → k < u32_mod
    → All (λ j. j ≢ k) (tried n ((k + d) % u32_mod))
tried-ne zero d k h i lt = tt
tried-ne (suc n) d k h i lt =
    let e : ((k + d) % u32_mod + 1) % u32_mod ≡ (k + (d + 1)) % u32_mod = omega arith in
    (omega arith, rw e (tried-ne n (d + 1) k (omega arith) (omega arith) lt))

module _ {ℓ} {V : Type ℓ} where
  abbrev Held : Assoc ℕ V → List ℕ → Type 0
  Held m = All (λ j. has_key j m ≡ true)

  Held-remove :
      (m : Assoc ℕ V) (k : ℕ) (l : List ℕ) → All (λ j. j ≢ k) l → Held m l → Held (remove k m) l
  Held-remove m k [] ne h = tt
  Held-remove m k (j ∷ l) ne h =
      (rw (has_key-remove k j m) (ground (arith, ne.0, h.0)), Held-remove m k l ne.1 h.1)

  -- So many distinct keys need so many entries.
  pigeonhole :
      (n k : ℕ) (m : Assoc ℕ V) → n ≤ u32_mod → k < u32_mod → Held m (tried n k) → n ≤ length m
  pigeonhole zero k m h lt held = omega arith
  pigeonhole (suc n) k m h lt held = omega (
    arith,
    length-remove-lt k m held.0,
    pigeonhole n ((k + 1) % u32_mod) (remove k m) (omega arith) (omega arith)
        (Held-remove m k _ (tried-ne n 1 k (omega arith) (omega arith) lt) held.1),
  )

module _ {ℓ} {A : Type ℓ} where
  push_loop-Held :
      (n : ℕ) (a : Arc A) (t : Inner A) → push_loop n a t ≡ none → Held t.map (tried n t.next_key)
  unfolding push_loop
  push_loop-Held zero a t h = tt
  push_loop-Held (suc n) a t h = elim (Bool-cases (has_key t.next_key t.map)) [
    | inl taken ↦ (taken, push_loop-Held n a (advanced t) (rw taken at h))
    | inr free ↦ absurd (cc (rw free at h))
  ]

-- What a push leaves behind: a key that was free, with the resource there and all else as it was.
pub record Pushed {ℓ} {A : Type ℓ} (a : Arc A) (t : Inner A) (k : ℕ) (t' : Inner A) : Type ℓ where
  pub in_range : k < u32_mod
  pub was_free : lookup k t.map ≡ none
  pub next_in_range : t'.next_key < u32_mod
  pub entries : (j : ℕ) → lookup j t'.map ≡ (if k == j then some a else lookup j t.map)

module _ {ℓ} {A : Type ℓ} where
  lookup-none : (k : ℕ) (m : Assoc ℕ (Arc A)) → has_key k m ≡ false → lookup k m ≡ none
  lookup-none k m h = elim (Option-cases (lookup k m)) [
    | inl e ↦ e
    | inr (v, e) ↦ absurd (cc (rw e at (has_key-lookup k m)))
  ]

  insert_at-Pushed :
      (a : Arc A) (t : Inner A)
      → t.next_key < u32_mod
      → has_key t.next_key t.map ≡ false
      → Pushed a t t.next_key (insert_at t.next_key a (advanced t))
  unfolding insert_at
  insert_at-Pushed a t lt free = record {
    in_range = lt;
    was_free = lookup-none t.next_key t.map free;
    next_in_range = omega arith;
    entries = λ j. lookup-insert t.next_key j a t.map;
  }

  push_loop-Pushed :
      (n : ℕ) (a : Arc A) (t : Inner A) (k : ℕ) (t' : Inner A)
      → t.next_key < u32_mod
      → push_loop n a t ≡ some (k, t')
      → Pushed a t k t'
  unfolding push_loop
  push_loop-Pushed zero a t k t' lt h = cc
  push_loop-Pushed (suc n) a t k t' lt h = elim (Bool-cases (has_key t.next_key t.map)) [
    | inl taken ↦
        let p = push_loop-Pushed n a (advanced t) k t' (omega arith) (rw taken at h) in
        record {
          in_range = p.in_range;
          was_free = p.was_free;
          next_in_range = p.next_in_range;
          entries = p.entries;
        }
    | inr free ↦
        subst (λ (r : ℕ × Inner A). Pushed a t r.0 r.1) (some-injective _ _ (rw free at h))
          (insert_at-Pushed a t lt free)
  ]

  -- Below the limit on entries and with the counter in the range of a `u32`, the loop of `push`
  -- ends with a key that was free, whatever the position of the counter and however often it
  -- wraps around.
  pub push_finds_free :
      (a : Arc A) (t : Inner A)
      → length t.map < u32_max
      → t.next_key < u32_mod
      → (k : ℕ) × (t' : Inner A) × (push a t ≡ some (ok k, t')) × Pushed a t k t'
  unfolding push
  push_finds_free a t room lt = elim (Option-cases (push_loop (length t.map + 1) a t)) [
    | inl out ↦ absurd (
        omega (
          arith,
          pigeonhole (length t.map + 1) t.next_key t.map (omega arith) lt
              (push_loop-Held _ a t out),
        ))
    | inr ((k, t'), done) ↦ (k, t', rw (not_full, done) refl, push_loop-Pushed _ a t k t' lt done)
  ]
    where
      not_full : (length t.map == u32_max) ≡ false
      not_full = ground arith

  -- A table with `u32::MAX` entries refuses a push by a trap, and stays as it is.
  pub push_full :
      (a : Arc A) (t : Inner A)
      → length t.map ≡ u32_max
      → push a t ≡ some (err (trap "table has no free keys"), t)
  unfolding push
  push_full a t full = rw full refl
