-- ===== src/Backends/Memory/Laws.antt =====
-- Laws of the lease map and of the two searches for an address.
use rsdhcp.Backends.{Lease, is_current}
use rsdhcp.Backends.Memory.Database.{expired_in, insert, lookup, remove, unused_loop}
use rsdhcp.External.{Chrono, Ipnet}
use rsdhcp.Prelude.{
  ==_false, ==_iff, ==_no, ==_yes, All, Bool-cases, List, Option-cases, [], arith, false, inl, inr,
  none, refl, some, some-eq, subst, suc, sym, true, zero, ℕ, ◌+◌, ◌<◌, ◌==◌, ◌∙◌, ◌∷◌, ◌≡◌, ◌≢◌,
  ◌≤◌,
}
use rsdhcp.Protocol.Value.{Ipv4Addr}

module _ ⦃ipnet : Ipnet⦄ ⦃chrono : Chrono⦄ where
  -- Every key stands once.
  unfoldable pub Distinct : List (Ipv4Addr × Lease) → Type 0
  Distinct [] = Unit {0}
  Distinct ((k, lease) ∷ db) = (lookup k db ≡ none) × Distinct db

  pub lookup-remove_same :
      (ip : Ipv4Addr) (db : List (Ipv4Addr × Lease)) → lookup ip (remove ip db) ≡ none
  unfolding lookup remove
  lookup-remove_same ip [] = refl
  lookup-remove_same ip ((k, lease) ∷ db) = elim (Bool-cases (k == ip)) [
    | inl t ↦ rw (t) (lookup-remove_same ip db)
    | inr f ↦ rw (f, lookup, f) (lookup-remove_same ip db)
  ]

  pub lookup-remove_other :
      (ip other : Ipv4Addr) (db : List (Ipv4Addr × Lease))
      → ¬ (other ≡ ip)
      → lookup other (remove ip db) ≡ lookup other db
  unfolding lookup remove
  lookup-remove_other ip other [] n = refl
  lookup-remove_other ip other ((k, lease) ∷ db) n = elim (Bool-cases (k == ip)) [
    | inl t ↦
        let far : (k == other) ≡ false = ==_no (λ e. n (sym e ∙ (==_iff k ip).0 t)) in
        rw (t, far) (lookup-remove_other ip other db n)
    | inr f ↦ elim (Bool-cases (k == other)) [
      | inl u ↦ rw (f, lookup, u) refl
      | inr u ↦ rw (f, lookup, u) (lookup-remove_other ip other db n)
    ]
  ]

  -- A map finds what was inserted last under an address, and elsewhere what it found before.
  pub lookup-insert :
      (ip other : Ipv4Addr) (lease : Lease) (db : List (Ipv4Addr × Lease))
      → (lookup ip (insert ip lease db) ≡ some lease)
        × (¬ (other ≡ ip) → lookup other (insert ip lease db) ≡ lookup other db)
  unfolding lookup insert
  lookup-insert ip other lease db =
      (ground arith, λ n. rw (==_no (λ e. n (sym e))) (lookup-remove_other ip other db n))

  pub remove-Distinct :
      (ip : Ipv4Addr) (db : List (Ipv4Addr × Lease)) → Distinct db → Distinct (remove ip db)
  unfolding Distinct remove
  remove-Distinct ip [] h = tt
  remove-Distinct ip ((k, lease) ∷ db) h = elim (Bool-cases (k == ip)) [
    | inl t ↦ rw (t) (remove-Distinct ip db h.1)
    | inr f ↦ rw (f) ((lookup-remove_other ip k db (==_false f) ∙ h.0, remove-Distinct ip db h.1))
  ]

  pub insert-Distinct :
      (ip : Ipv4Addr) (lease : Lease) (db : List (Ipv4Addr × Lease))
      → Distinct db
      → Distinct (insert ip lease db)
  unfolding Distinct insert
  insert-Distinct ip lease db h = (lookup-remove_same ip db, remove-Distinct ip db h)

  pub remove-All :
      (P : Ipv4Addr × Lease → Type 0) (ip : Ipv4Addr) (db : List (Ipv4Addr × Lease))
      → All P db
      → All P (remove ip db)
  unfolding remove
  remove-All P ip [] h = tt
  remove-All P ip ((k, lease) ∷ db) h = elim (Bool-cases (k == ip)) [
    | inl t ↦ rw (t) (remove-All P ip db h.1)
    | inr f ↦ rw (f) ((h.0, remove-All P ip db h.1))
  ]

  pub lookup-All :
      (P : Ipv4Addr × Lease → Type 0) (ip : Ipv4Addr) (db : List (Ipv4Addr × Lease)) (lease : Lease)
      → All P db
      → lookup ip db ≡ some lease
      → P (ip, lease)
  unfolding lookup
  lookup-All P ip [] lease h e = cc
  lookup-All P ip ((k, l) ∷ db) lease h e = elim (Bool-cases (k == ip)) [
    | inl t ↦
        let same : l ≡ lease = some-eq (rw (lookup, t) at e) in
        subst (λ x. P (x, lease)) ((==_iff k ip).0 t) (subst (λ x. P (k, x)) same h.0)
    | inr f ↦ lookup-All P ip db lease h.1 (rw (lookup, f) at e)
  ]

  held_at :
      (ip b : Ipv4Addr) (lease : Lease) (db : List (Ipv4Addr × Lease))
      → ip ≡ b
      → lookup ip db ≡ some lease
      → lookup b db ≢ none
  held_at ip b lease db same held = λ free. let also : lookup ip db ≡ none = rw (same) free in cc

  free_or_held :
      (k a : Ipv4Addr) (lease : Lease) (db : List (Ipv4Addr × Lease))
      → k ≡ a
      → lookup k db ≡ none
      → lookup a db ≡ some lease
      → ⊥
  free_or_held k a lease db same free held = held_at a k lease db (sym same) held free

  next_le : (ip b : ℕ) → ip ≤ b → ¬ (ip ≡ b) → ip + 1 ≤ b
  next_le ip b low n = omega arith

  -- The first address of the range that the map lacks, or none if the map has them all.
  pub unused_loop-some :
      (rounds : ℕ) (ip a : Ipv4Addr) (db : List (Ipv4Addr × Lease))
      → unused_loop rounds ip db ≡ some a
      → (ip ≤ a)
        × (a < ip + rounds)
        × (lookup a db ≡ none)
        × ((b : Ipv4Addr) → ip ≤ b → b < a → lookup b db ≢ none)
  unfolding unused_loop
  unused_loop-some zero ip a db e = cc
  unused_loop-some (suc rounds) ip a db e = elim (Option-cases (lookup ip db)) [
    | inl free ↦
        let same : ip ≡ a = some-eq (rw (free) at e) in
        rw (← same) ((omega arith, omega arith, free, λ b low high. omega arith))
    | inr (lease, held) ↦
        let (low, high, free, first) = unused_loop-some rounds (ip + 1) a db (rw (held) at e) in
        (
          omega arith,
          omega arith,
          free,
          λ b l h. elim (Bool-cases (ip == b)) [
            | inl t ↦ held_at ip b lease db ((==_iff ip b).0 t) held
            | inr f ↦ first b (next_le ip b l (==_false f)) h
          ],
        )
  ]

  pub unused_loop-none :
      (rounds : ℕ) (ip : Ipv4Addr) (db : List (Ipv4Addr × Lease))
      → unused_loop rounds ip db ≡ none
      → (b : Ipv4Addr) → ip ≤ b
      → b < ip + rounds
      → lookup b db ≢ none
  unfolding unused_loop
  unused_loop-none zero ip db e b low high = omega arith
  unused_loop-none (suc rounds) ip db e b low high = elim (Option-cases (lookup ip db)) [
    | inl free ↦ let bad : some ip ≡ none = rw (free) at e in cc
    | inr (lease, held) ↦ elim (Bool-cases (ip == b)) [
      | inl t ↦ held_at ip b lease db ((==_iff ip b).0 t) held
      | inr f ↦
          unused_loop-none rounds (ip + 1) db (rw (held) at e) b (next_le ip b low (==_false f))
            (omega arith)
    ]
  ]

  -- The address of an expired lease: the map has a lease for it that is not current.
  pub expired_in-some :
      (now : chrono.DateTime) (db : List (Ipv4Addr × Lease)) (a : Ipv4Addr)
      → Distinct db
      → expired_in now db ≡ some a
      → (lease : Lease) × (lookup a db ≡ some lease) × (is_current now lease ≡ false)
  unfolding expired_in lookup Distinct
  expired_in-some now [] a d e = cc
  expired_in-some now ((k, lease) ∷ db) a d e = elim (Bool-cases (is_current now lease)) [
    | inl t ↦
        let (l, found, old) = expired_in-some now db a d.1 (rw (t) at e) in
        (l, rw (==_no (λ q. free_or_held k a l db q d.0 found)) found, old)
    | inr f ↦ let same : k ≡ a = some-eq (rw (f) at e) in (lease, rw (==_yes same) refl, f)
  ]

  pub expired_in-none :
      (now : chrono.DateTime) (db : List (Ipv4Addr × Lease))
      → expired_in now db ≡ none
      → (a : Ipv4Addr) (lease : Lease) → lookup a db ≡ some lease
      → is_current now lease ≡ true
  unfolding expired_in lookup
  expired_in-none now [] e a lease h = cc
  expired_in-none now ((k, l) ∷ db) e a lease h = elim (Bool-cases (is_current now l)) [
    | inl t ↦ elim (Bool-cases (k == a)) [
      | inl u ↦ let same : l ≡ lease = some-eq (rw (lookup, u) at h) in rw (← same) t
      | inr u ↦ expired_in-none now db (rw (t) at e) a lease (rw (lookup, u) at h)
    ]
    | inr f ↦ let bad : some k ≡ none = rw (f) at e in cc
  ]
