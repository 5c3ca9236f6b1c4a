-- ===== src/Server/Registry/Invariant.antt =====
-- The clients by fingerprint, the runtimes by name and the sessions of both belong together, whatever
-- is done with the registry.
use rustgo.Prelude.{
  ℕ, ◌<◌, none, some, [], ◌==◌, ==_iff, ◌≡◌, inl, inr, refl, ◌∙◌, ap, Bool-cases, arith,
}
use rustgo.Prelude.Bytes.{Bytes, bytes_key}
use rustgo.Prelude.Dict.{get, modify, nat_key, IsDict, get-modify}
use rustgo.Server.Session.{SessionRuntime}
use rustgo.Server.Session.Steps.{Serves}
use rustgo.Server.Registry.{ActiveSession, RegistryState}

pub record IsRegistry (state : RegistryState) : Type 0 where
  pub dict : IsDict state.active
  pub owned :
      (f : Bytes) (a : ActiveSession)
      → get state.active f ≡ some a
      → (r : ℕ) × (runtime : SessionRuntime) × (get state.by_name a.name ≡ some r)
        × (get state.runtimes r ≡ some runtime)
        × Serves runtime f a.name a.session_id
  pub named :
      (n : Bytes) (r : ℕ)
      → get state.by_name n ≡ some r
      → (runtime : SessionRuntime) × (f : Bytes) × (a : ActiveSession) × (get state.runtimes r
          ≡ some runtime)
        × (get state.active f ≡ some a)
        × (a.name ≡ n)
        × Serves runtime f n a.session_id
  pub fresh : (r : ℕ) → state.next_observability_generation < r → get state.runtimes r ≡ none

pub nobody-IsRegistry :
    IsRegistry
      (record { active = []; by_name = []; next_observability_generation = 0; runtimes = [] })
unfolding IsDict get
nobody-IsRegistry = record {
  dict = tt;
  owned = λ f a at. absurd (ground arith);
  named = λ n r at. absurd (ground arith);
  fresh = λ r h. refl;
}

-- A change of a runtime that leaves it to its client.
unfoldable pub Keeps : RegistryState → ℕ → (SessionRuntime → SessionRuntime) → Type 0
Keeps state r g =
    (old : SessionRuntime)
    → get state.runtimes r ≡ some old
    → Serves (g old) old.fingerprint old.client old.session_id

kept :
    (state : RegistryState) (r : ℕ) (g : SessionRuntime → SessionRuntime) (i : ℕ)
    (old : SessionRuntime)
    → Keeps state r g
    → get state.runtimes i ≡ some old
    → (new : SessionRuntime) × (get (modify state.runtimes r g) i ≡ some new)
      × Serves new old.fingerprint old.client old.session_id
unfolding Keeps Serves
kept state r g i old keeps at = elim (Bool-cases (r == i)) [
  | inl here ↦
      let same : r ≡ i = (==_iff r i).0 here in
      (
        g old,
        get-modify state.runtimes r i g ∙ rw (here, at) refl,
        keeps old (ap (get state.runtimes) same ∙ at),
      )
  | inr there ↦ (old, get-modify state.runtimes r i g ∙ rw (there, at) refl, (refl, refl, refl))
]

Serves-Serves :
    (new old : SessionRuntime) (f n s : Bytes)
    → Serves new old.fingerprint old.client old.session_id
    → Serves old f n s
    → Serves new f n s
unfolding Serves
Serves-Serves new old f n s a b = (a.0 ∙ b.0, a.1 ∙ b.1, a.2 ∙ b.2)

pub modified-IsRegistry :
    (state : RegistryState) (r : ℕ) (g : SessionRuntime → SessionRuntime)
    → IsRegistry state
    → Keeps state r g
    → IsRegistry (record state { runtimes = modify state.runtimes r g })
modified-IsRegistry state r g v keeps = record {
  dict = v.dict;
  owned = λ f a at.
      let (i, old, by, is, serves) = v.owned f a at in
      let (new, is_new, same) = kept state r g i old keeps is in
      (i, new, by, is_new, Serves-Serves new old f a.name a.session_id same serves);
  named = λ n i by.
      let (old, f, a, is, at, name, serves) = v.named n i by in
      let (new, is_new, same) = kept state r g i old keeps is in
      (new, f, a, is_new, at, name, Serves-Serves new old f n a.session_id same serves);
  fresh = λ i h. get-modify state.runtimes r i g ∙ rw (v.fresh i h) (ground arith);
}
