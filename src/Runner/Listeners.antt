-- ===== src/Runner/Listeners.antt =====
-- The handles of the listeners of `preview1_builder`.
use mathlib.Core.Option.{some-injective}
use bls_runtime.Prelude.{
  ℕ, zero, suc, ◌+◌, ◌≤◌, ◌<◌, ◌≡◌, refl, ◌∙◌, true, false, Option, none, some, List, [], ◌∷◌,
  Bytes, ltb, ◌==◌, nat_same, map, length, get_elem?, All, arith, Bool-cases, Option-cases, inl,
  inr,
}
use bls_runtime.Prelude.Assoc.{nat_eq, lookup, lookup-insert}
use bls_runtime.Wasi.Table.{insert_at}
use bls_runtime.Runner.{socket, Host, fresh, Building, listen_fd, bind_listens}

-- A listener never gets a handle below the first free one.
listen_fd-le :
    (asked : Option ℕ) (n : ℕ) (fd m : ℕ) → listen_fd asked n ≡ some (fd, m) → (n ≤ fd) × (n ≤ m)
unfolding listen_fd
listen_fd-le none n fd m h = ground arith
listen_fd-le (some k) n fd m h = ground arith

abbrev bound : Bytes → ℕ → ℕ → Building → Building
unfolding insert_at
bound l fd m b = record { table = insert_at fd (fresh (socket l)) b.table; max_fd = m }

bind_listens_cons :
    (host : Host) (l : Bytes) (asked : Option ℕ) (ls : List (Bytes × Option ℕ)) (b : Building)
    → {b' : Building} → bind_listens host ((l, asked) ∷ ls) b ≡ some b'
    → (fd : ℕ) × (m : ℕ) × (listen_fd asked b.max_fd ≡ some (fd, m))
      × (bind_listens host ls (bound l fd m b) ≡ some b')
unfolding bind_listens
bind_listens_cons host l asked ls b {b'} h = elim (Option-cases (listen_fd asked b.max_fd)) [
  | inl e ↦ absurd (cc (rw (e, bind_listens) at h))
  | inr ((fd, m), e) ↦ elim (Bool-cases (host.bind l)) [
    | inl binds ↦ (fd, m, e, rw (e, binds, bind_listens) at h)
    | inr fails ↦ absurd (cc (rw (e, fails, bind_listens) at h))
  ]
]

-- Whatever listeners are configured, a build that succeeds leaves every handle below the first
-- free one as it was: a listener never takes the place of a directory or of a standard stream.
pub bind_listens_keeps :
    (host : Host) (ls : List (Bytes × Option ℕ)) (b b' : Building) (j : ℕ)
    → bind_listens host ls b ≡ some b'
    → j < b.max_fd
    → lookup j b'.table.map ≡ lookup j b.table.map
unfolding bind_listens insert_at
bind_listens_keeps host [] b b' j h lt = cc
bind_listens_keeps host ((l, asked) ∷ ls) b b' j h lt =
    let (fd, m, e, rest) = bind_listens_cons host l asked ls b h in
    let (fd_ge, m_ge) = listen_fd-le asked b.max_fd fd m e in
    let other : (fd == j) ≡ false = ground arith in
    bind_listens_keeps host ls (bound l fd m b) b' j rest (omega arith)
    ∙ lookup-insert fd j (fresh (socket l)) b.table.map
    ∙ rw other refl

abbrev pub unasked : Bytes → Bytes × Option ℕ
unasked l = (l, none)

-- Listeners without a handle of their own always bind where the addresses do, and move the first
-- free handle by their number.
pub unasked_binds :
    (host : Host) (ls : List Bytes) (b : Building)
    → All (λ l. host.bind l ≡ true) ls
    → (b' : Building) × (bind_listens host (map unasked ls) b ≡ some b')
      × (b'.max_fd ≡ b.max_fd + length ls)
unfolding bind_listens listen_fd
unasked_binds host [] b all = (b, refl, omega arith)
unasked_binds host (l ∷ ls) b (binds, all) =
    let (b', e, n) = unasked_binds host ls (bound l b.max_fd (b.max_fd + 1) b) all in
    (b', rw (binds, bind_listens) e, omega arith)

-- Listeners that ask for no handle get consecutive ones from the first free handle on, in the
-- order of the configuration, where each of their addresses binds.
pub unasked_listeners :
    (host : Host) (ls : List Bytes) (b : Building) (i : ℕ) (l : Bytes)
    → All (λ l. host.bind l ≡ true) ls
    → get_elem? ls i ≡ some l
    → (b' : Building) × (bind_listens host (map unasked ls) b ≡ some b')
      × (lookup (b.max_fd + i) b'.table.map ≡ some (fresh (socket l)))
unfolding bind_listens listen_fd insert_at
unasked_listeners host [] b i l all h = cc
unasked_listeners host (l' ∷ ls) b zero l (binds, all) h =
    let next = bound l' b.max_fd (b.max_fd + 1) b in
    let (b', e, n) = unasked_binds host ls next all in
    let same : (b.max_fd == b.max_fd) ≡ true = nat_same b.max_fd in
    let add_zero : b.max_fd + 0 ≡ b.max_fd = omega arith in
    (
      b',
      rw (binds, bind_listens) e,
      rw add_zero (
          bind_listens_keeps host (map unasked ls) next b' b.max_fd e (omega arith)
          ∙ lookup-insert b.max_fd b.max_fd _ b.table.map
          ∙ rw (same, some-injective _ _ h) refl),
    )
unasked_listeners host (l' ∷ ls) b (suc i) l (binds, all) h =
    let (b', e, found) = unasked_listeners host ls (bound l' b.max_fd (b.max_fd + 1) b) i l all h in
    let n : b.max_fd + suc i ≡ b.max_fd + 1 + i = omega arith in
    (b', rw (binds, bind_listens) e, rw n found)

-- A listener on the first free handle, asked for by number, is lost when a listener without a
-- handle follows: both bind, and the second one stands where the first one was put.
pub asked_listener_lost :
    (host : Host) (l l' : Bytes) (b : Building)
    → host.bind l ≡ true
    → host.bind l' ≡ true
    → (b' : Building) × (bind_listens host ((l, some b.max_fd) ∷ (l', none) ∷ []) b ≡ some b')
      × (lookup b.max_fd b'.table.map ≡ some (fresh (socket l')))
unfolding bind_listens listen_fd insert_at
asked_listener_lost host l l' b h h' =
    let free : ltb b.max_fd b.max_fd ≡ false = ground arith in
    (
      bound l' b.max_fd (b.max_fd + 1) (bound l b.max_fd b.max_fd b),
      rw (free, h, h', bind_listens, listen_fd) refl,
      lookup-insert b.max_fd b.max_fd _ _ ∙ rw (nat_same b.max_fd) refl,
    )
