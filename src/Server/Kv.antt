-- ===== src/Server/Kv.antt =====
-- A JetStream key-value bucket whose values are serialised with serde_json, as the server uses it
-- (crates/openlink-server/src/acars.rs and station_registry.rs). The bucket is not code of this
-- repository: it is a parameter, and the fields below state its documented behaviour.
use mathlib.Core.List.{Memᴰ}
use openlink.Prelude.{
  ℕ, ◌≡◌, ◌⊎◌, Text, Option, some, none, List, Result, ok, Done, ◌=t◌, and_then, if◌then◌else◌,
}

-- `kv::Entry`: the revision, and the value, which is empty behind a deletion.
pub record Entry (V : Type 0) : Type 0 where
  pub revision : ℕ
  pub value : Option V

-- What a write of `v` at `k` makes of the values.
abbrev pub written : {V : Type 0} → (Text → Option V) → Text → Option V → Text → Option V
written view k v j = if k =t j then v else view j

-- Every operation may fail. A read changes nothing. A write that reports success has happened; one
-- that reports a failure has happened or not. A conditional write succeeds only at the revision
-- that the entry has. `keys` lists at least every key that has a value.
pub record Kv (S V : Type 0) : Type 0 where
  pub entry : S → Text → Result (Option (Entry V))
  pub get : S → Text → Result (Option V)
  pub keys : S → Result (List Text)
  pub put : Text → V → S → S × Done
  pub update : Text → V → ℕ → S → S × Done
  pub delete : Text → S → S × Done
  -- the stored values
  pub view : S → Text → Option V
  pub entry-view :
      (s : S) (k : Text) (e : Option (Entry V))
      → entry s k ≡ ok e
      → and_then (λ (x : Entry V). x.value) e ≡ view s k
  pub get-view : (s : S) (k : Text) (o : Option V) → get s k ≡ ok o → o ≡ view s k
  pub keys-view :
      (s : S) (ks : List Text) (k : Text) (v : V) → keys s ≡ ok ks → view s k ≡ some v → Memᴰ k ks
  pub put_done :
      (k : Text) (v : V) (s : S) (j : Text)
      → (put k v s).1 ≡ ok tt
      → view (put k v s).0 j ≡ written (view s) k (some v) j
  pub put_any :
      (k : Text) (v : V) (s : S) (j : Text)
      → (view (put k v s).0 j ≡ view s j) ⊎ (view (put k v s).0 j ≡ written (view s) k (some v) j)
  pub update_done :
      (k : Text) (v : V) (r : ℕ) (s : S) (j : Text)
      → (update k v r s).1 ≡ ok tt
      → view (update k v r s).0 j ≡ written (view s) k (some v) j
  pub update_any :
      (k : Text) (v : V) (r : ℕ) (s : S) (j : Text)
      → (view (update k v r s).0 j ≡ view s j)
        ⊎ (view (update k v r s).0 j ≡ written (view s) k (some v) j)
  pub delete_done :
      (k : Text) (s : S) (j : Text)
      → (delete k s).1 ≡ ok tt
      → view (delete k s).0 j ≡ written (view s) k none j
  pub delete_any :
      (k : Text) (s : S) (j : Text)
      → (view (delete k s).0 j ≡ view s j) ⊎ (view (delete k s).0 j ≡ written (view s) k none j)
