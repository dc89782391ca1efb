-- ===== src/Examples/Memory.antt =====
-- A bucket in memory, which shows that what `Server/Kv.antt` asks of a bucket can be met. A deletion
-- leaves an entry without a value, and every write takes the next revision, as in JetStream.
use mathlib.Core.List.{Memᴰ}
use openlink.Prelude.{
  ℕ, suc, ◌≡◌, refl, ◌⊎◌, inl, inr, Text, Option, none, some, List, [], ◌∷◌, map, arith, Bool-cases,
  ◌=t◌, =t_iff, ◌==◌, and_then, Result, ok, err, Done, storage, if◌then◌else◌,
}
use openlink.Server.Kv.{Entry, Kv, written}

module _ {E : Type 0} where
  unfoldable pub lookup : Text → List (Text × E) → Option E
  lookup k [] = none
  lookup k ((j, e) ∷ m) = if j =t k then some e else lookup k m

  unfoldable pub insert : Text → E → List (Text × E) → List (Text × E)
  insert k e [] = (k, e) ∷ []
  insert k e ((j, f) ∷ m) = if j =t k then (k, e) ∷ m else (j, f) ∷ insert k e m

  pub lookup-insert :
      (k j : Text) (e : E) (m : List (Text × E))
      → lookup j (insert k e m) ≡ (if k =t j then some e else lookup j m)
  unfolding lookup insert
  lookup-insert k j e [] = refl
  lookup-insert k j e ((i, f) ∷ m) =
      ground (arith, =t_iff k j, =t_iff i k, =t_iff i j, lookup-insert k j e m)

  lookup-mem :
      (k : Text) (e : E) (m : List (Text × E))
      → lookup k m ≡ some e
      → Memᴰ k (map (λ (p : Text × E). p.0) m)
  unfolding lookup
  lookup-mem k e [] h = cc
  lookup-mem k e ((j, f) ∷ m) h = elim (Bool-cases (j =t k)) [
    | inl p ↦ rw ((=t_iff j k).0 p) (Memᴰ.head refl)
    | inr p ↦ Memᴰ.tail (lookup-mem k e m (rw p at h))
  ]

pub record Memory (V : Type 0) : Type 0 where
  pub entries : List (Text × Entry V)
  pub last : ℕ

abbrev pub empty : {V : Type 0} → Memory V
empty = record { entries = []; last = 0 }

module _ {V : Type 0} where
  abbrev write : Text → Option V → Memory V → Memory V
  write k v s = record {
    entries = insert k (record { revision = suc s.last; value = v }) s.entries;
    last = suc s.last;
  }

  abbrev value_at : Memory V → Text → Option V
  value_at s k = and_then (λ (e : Entry V). e.value) (lookup k s.entries)

  pub value_at-write :
      (k : Text) (v : Option V) (s : Memory V) (j : Text)
      → value_at (write k v s) j ≡ written (value_at s) k v j
  value_at-write k v s j = rw lookup-insert (ground arith)

  abbrev pub revision_at : Memory V → Text → ℕ
  revision_at s k = elim (lookup k s.entries) [ none ↦ 0 | some e ↦ e.revision ]

  abbrev pub update_at : Text → V → ℕ → Memory V → Memory V × Done
  update_at k v r s = if revision_at s k == r then (write k (some v) s, ok tt) else (s, err storage)

  pub update_at-done :
      (k : Text) (v : V) (r : ℕ) (s : Memory V) (j : Text)
      → (update_at k v r s).1 ≡ ok tt
      → value_at (update_at k v r s).0 j ≡ written (value_at s) k (some v) j
  update_at-done k v r s j h = elim (Bool-cases (revision_at s k == r)) [
    | inl p ↦ rw p (value_at-write k (some v) s j)
    | inr p ↦ cc (p)
  ]

  pub update_at-any :
      (k : Text) (v : V) (r : ℕ) (s : Memory V) (j : Text)
      → (value_at (update_at k v r s).0 j ≡ value_at s j)
        ⊎ (value_at (update_at k v r s).0 j ≡ written (value_at s) k (some v) j)
  update_at-any k v r s j = elim (Bool-cases (revision_at s k == r)) [
    | inl p ↦ inr (rw p (value_at-write k (some v) s j))
    | inr p ↦ inl (rw p)
  ]

  pub keys-lookup :
      (s : Memory V) (k : Text) (v : V)
      → value_at s k ≡ some v
      → Memᴰ k (map (λ (p : Text × Entry V). p.0) s.entries)
  keys-lookup s k v h = found (lookup k s.entries) refl h
    where
      found :
          (o : Option (Entry V))
          → lookup k s.entries ≡ o
          → and_then (λ (e : Entry V). e.value) o ≡ some v
          → Memᴰ k (map (λ (p : Text × Entry V). p.0) s.entries)
      found none p q = absurd (none_some q)
        where
          none_some : ◌≡◌ {A = Option V} none (some v) → ⊥
          none_some e = cc
      found (some e) p q = lookup-mem k e s.entries p

  pub entry-value_at :
      (s : Memory V) (k : Text) (e : Option (Entry V))
      → ◌≡◌ {A = Result (Option (Entry V))} (ok (lookup k s.entries)) (ok e)
      → and_then (λ (x : Entry V). x.value) e ≡ value_at s k
  entry-value_at s k e p = let q : lookup k s.entries ≡ e = cc in rw q

  pub get-value_at :
      (s : Memory V) (k : Text) (o : Option V)
      → ◌≡◌ {A = Result (Option V)} (ok (value_at s k)) (ok o)
      → o ≡ value_at s k
  get-value_at s k o p = cc

  pub keys-value_at :
      (s : Memory V) (ks : List Text) (k : Text) (v : V)
      → ◌≡◌ {A = Result (List Text)} (ok (map (λ (p : Text × Entry V). p.0) s.entries)) (ok ks)
      → value_at s k ≡ some v
      → Memᴰ k ks
  keys-value_at s ks k v p q =
      let same : map (λ (p : Text × Entry V). p.0) s.entries ≡ ks = cc in
      rw (← same) (keys-lookup s k v q)

  abbrev pub memory : Kv (Memory V) V
  memory = record {
    entry = λ s k. ok (lookup k s.entries);
    get = λ s k. ok (value_at s k);
    keys = λ s. ok (map (λ (p : Text × Entry V). p.0) s.entries);
    put = λ k v s. (write k (some v) s, ok tt);
    update = update_at;
    delete = λ k s. (write k none s, ok tt);
    view = value_at;
    entry-view = entry-value_at;
    get-view = get-value_at;
    keys-view = keys-value_at;
    put_done = λ k v s j p. value_at-write k (some v) s j;
    put_any = λ k v s j. inr (value_at-write k (some v) s j);
    update_done = update_at-done;
    update_any = update_at-any;
    delete_done = λ k s j p. value_at-write k none s j;
    delete_any = λ k s j. inr (value_at-write k none s j);
  }
