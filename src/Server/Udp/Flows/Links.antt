-- ===== src/Server/Udp/Flows/Links.antt =====
-- How a change of the map by identifier changes the queue that its links make.
use rustgo.Prelude.{
  some-injective, ℕ, Bool, true, false, Option, none, some, [], ◌∷◌, ◌++◌, ◌==◌, if◌then◌else◌, ◌≡◌,
  ◌≢◌, ◌⊎◌, inl, inr, refl, ◌∙◌, sym, ap, subst, Bool-cases, arith,
}
use rustgo.Prelude.Dict.{Dict, get, map_some, nat_key}
use rustgo.Server.Udp.Flows.{FlowEntry, with_next, with_previous}
use rustgo.Server.Udp.Flows.Contents.{drop_id_absent}
use rustgo.Server.Udp.Flows.Queue.{
  Flow, Queue, head_id, last_id, has_id, drop_id, Distinct, entry_of, Linked,
}

pub Linked-frame :
    (d e : Dict ℕ FlowEntry) (previous : Option ℕ) (q : Queue) (tail : Option ℕ)
    → ((i : ℕ) → has_id q i ≡ true → get e i ≡ get d i)
    → Linked d previous q tail
    → Linked e previous q tail
unfolding Linked has_id
Linked-frame d e previous [] tail same l = l
Linked-frame d e previous (f ∷ q) tail same l = (
  ground (arith, same f.session_id, l.0),
  Linked-frame d e (some f.session_id) q tail (λ i h. same i (ground arith)) l.1,
)

pub Linked-tail :
    (d : Dict ℕ FlowEntry) (previous : Option ℕ) (f : Flow) (q : Queue) (tail : Option ℕ)
    → Linked d previous (f ∷ q) tail
    → (tail ≡ some (last_id f q)) × (has_id (f ∷ q) (last_id f q) ≡ true)
unfolding Linked has_id
Linked-tail d previous f [] tail l = (l.1, ground arith)
Linked-tail d previous f (g ∷ q) tail l =
    let (e, has) = Linked-tail d (some f.session_id) g q tail l.1 in (e, ground arith)

some_apart : (i j : ℕ) → (i == j) ≡ false → some i ≢ some j
some_apart i j apart = λ same. ground arith

pub has_id-first : (f : Flow) (q : Queue) → has_id (f ∷ q) f.session_id ≡ true
unfolding has_id
has_id-first f q = ground arith

pub has_id-cons : (f : Flow) (q : Queue) (i : ℕ) → has_id q i ≡ true → has_id (f ∷ q) i ≡ true
unfolding has_id
has_id-cons f q i h = ground arith

pub has_id-later :
    (f : Flow) (q : Queue) (i : ℕ)
    → (f.session_id == i) ≡ false
    → has_id (f ∷ q) i ≡ true
    → has_id q i ≡ true
unfolding has_id
has_id-later f q i apart h = ground arith

pub head_id-has_id :
    (q : Queue) → (head_id q ≡ none) ⊎ ((n : ℕ) × (head_id q ≡ some n) × (has_id q n ≡ true))
unfolding has_id
head_id-has_id [] = inl refl
head_id-has_id (f ∷ q) = inr (f.session_id, refl, ground arith)

-- The entry of an identifier in the queue: its links lead into the queue or out of its ends.
pub Linked-entry :
    (d : Dict ℕ FlowEntry) (previous : Option ℕ) (q : Queue) (tail : Option ℕ) (i : ℕ)
    (e : FlowEntry)
    → Linked d previous q tail
    → has_id q i ≡ true
    → get d i ≡ some e
    → (((head_id q ≡ some i) × (e.previous ≡ previous))
        ⊎ ((p : ℕ) × (e.previous ≡ some p) × (has_id q p ≡ true) × (head_id q ≢ some i)))
      × ((e.next ≡ none) ⊎ ((n : ℕ) × (e.next ≡ some n) × (has_id q n ≡ true)))
unfolding Linked has_id
Linked-entry d previous [] tail i e l has at = ground arith
Linked-entry d previous (f ∷ q) tail i e l has at = elim (Bool-cases (f.session_id == i)) [
  | inl here ↦ ground (arith, head_id-has_id q)
  | inr there ↦
      let (back, onward) =
        Linked-entry d (some f.session_id) q tail i e l.1 (has_id-later f q i there has) at in
      let not_first : head_id (f ∷ q) ≢ some i = some_apart f.session_id i there in
      (
        elim back [
          | inl (first, is) ↦ inr (f.session_id, is, has_id-first f q, not_first)
          | inr (p, is, inside, _) ↦ inr (p, is, has_id-cons f q p inside, not_first)
        ],
        elim onward [
          | inl is ↦ inl is
          | inr (n, is, inside) ↦ inr (n, is, has_id-cons f q n inside)
        ],
      )
]

-- Whether a link leads to an identifier.
abbrev pub at_link : Option ℕ → ℕ → Bool
at_link none i = false
at_link (some j) i = j == i

pub has_id-apart : (q : Queue) (i j : ℕ) → has_id q i ≡ true → has_id q j ≡ false → (i == j) ≡ false
has_id-apart q i j h k = ground arith

-- A flow is linked behind the last one.
pub Linked-snoc :
    (d e : Dict ℕ FlowEntry) (previous : Option ℕ) (f : Flow) (q : Queue) (tail : Option ℕ)
    (g : Flow)
    → Linked d previous (f ∷ q) tail
    → Distinct (f ∷ q)
    → has_id (f ∷ q) g.session_id ≡ false
    → get e g.session_id ≡ some (entry_of g (some (last_id f q)) none)
    → ((i : ℕ)
        → has_id (f ∷ q) i ≡ true
        → get e i ≡ (
            if last_id f q == i
            then map_some (with_next (some g.session_id)) (get d i)
            else get d i))
    → Linked e previous (f ∷ q ++ g ∷ []) (some g.session_id)
unfolding Linked has_id Distinct
Linked-snoc d e previous f [] tail g l distinct fresh new_one others =
    (ground (arith, others f.session_id, l.0), (new_one, refl))
Linked-snoc d e previous f (h ∷ q) tail g l distinct fresh new_one others = (
  (let last_in = (Linked-tail d (some f.session_id) h q tail l.1).1 in
      let apart = has_id-apart (h ∷ q) (last_id h q) f.session_id last_in distinct.0 in
      others f.session_id (ground arith) ∙ rw apart l.0),
  Linked-snoc d e (some f.session_id) h q tail g l.1 distinct.2 (ground arith) new_one
      (λ i has. others i (ground arith)),
)

-- What is left of the links when an identifier is taken out of the queue: its neighbours' links are
-- closed over it.
unfoldable pub Unlinked : (d e : Dict ℕ FlowEntry) → ℕ → FlowEntry → Type 0
Unlinked d e i entry =
    (j : ℕ)
    → i ≢ j
    → get e j ≡ (
        let back =
          if at_link entry.previous j then map_some (with_next entry.next) (get d j) else get d j in
        if at_link entry.next j then map_some (with_previous entry.previous) back else back)

link-apart :
    (link : Option ℕ) (q : Queue) (j : ℕ)
    → (link ≡ none) ⊎ ((n : ℕ) × (link ≡ some n) × (has_id q n ≡ true))
    → has_id q j ≡ false
    → at_link link j ≡ false
link-apart link q j ends out = ground arith

pub head_of-drop_id :
    (d : Dict ℕ FlowEntry) (previous : Option ℕ) (q : Queue) (tail : Option ℕ) (i : ℕ)
    (entry : FlowEntry)
    → Linked d previous q tail
    → Distinct q
    → get d i ≡ some entry
    → head_id q ≡ some i
    → head_id (drop_id q i) ≡ entry.next
unfolding Linked has_id Distinct drop_id
head_of-drop_id d previous [] tail i entry l distinct at first = cc
head_of-drop_id d previous (f ∷ q) tail i entry l distinct at first =
    ground (arith, drop_id_absent q i)

pub head_kept-drop_id : (q : Queue) (i : ℕ) → head_id q ≢ some i → head_id (drop_id q i) ≡ head_id q
unfolding drop_id
head_kept-drop_id [] i h = refl
head_kept-drop_id (f ∷ q) i h = ground arith

-- The flows that stood behind the one that is taken out come after its predecessor.
Linked-rest :
    (d e : Dict ℕ FlowEntry) (previous : Option ℕ) (f : Flow) (q : Queue) (tail : Option ℕ)
    → Linked d previous (f ∷ q) tail
    → Distinct (f ∷ q)
    → ((p : ℕ) → previous ≡ some p → has_id q p ≡ false)
    → Unlinked d e f.session_id (entry_of f previous (head_id q))
    → Linked e previous q (elim (head_id q) [ none ↦ previous | some _ ↦ tail ])
unfolding Linked has_id Distinct Unlinked
Linked-rest d e previous f [] tail l distinct out closed = refl
Linked-rest d e previous f (h ∷ q) tail l distinct out closed = (
  ground (arith, closed h.session_id, l.1.0, out h.session_id),
  Linked-frame d e (some h.session_id) q tail (λ j has. ground (arith, closed j, out j)) l.1.1,
)

pub Linked-drop_id :
    (d e : Dict ℕ FlowEntry) (previous : Option ℕ) (q : Queue) (tail : Option ℕ) (i : ℕ)
    (entry : FlowEntry)
    → Linked d previous q tail
    → Distinct q
    → ((p : ℕ) → previous ≡ some p → has_id q p ≡ false)
    → has_id q i ≡ true
    → get d i ≡ some entry
    → Unlinked d e i entry
    → Linked e previous (drop_id q i) (elim entry.next [ none ↦ entry.previous | some _ ↦ tail ])
unfolding Linked has_id Distinct drop_id Unlinked
Linked-drop_id d e previous [] tail i entry l distinct out has at closed = absurd (ground arith)
Linked-drop_id d e previous (f ∷ q) tail i entry l distinct out has at closed =
    elim (Bool-cases (f.session_id == i)) [
      | inl here ↦
          let same : f.session_id ≡ i = ground arith in
          let is : entry_of f previous (head_id q) ≡ entry =
            some-injective (sym l.0 ∙ (ap (get d) same ∙ at)) in
          rw (here, drop_id_absent q i (ground arith))
            (subst (λ k. Linked e previous q (elim k.next [ none ↦ k.previous | some _ ↦ tail ])) is
              (Linked-rest d e previous f q tail l distinct (λ p at_p. ground (arith, out p at_p))
                (subst (λ k. Unlinked d e k (entry_of f previous (head_id q))) (sym same)
                  (subst (λ k. Unlinked d e i k) (sym is) closed))))
      | inr there ↦
          let ends = Linked-entry d (some f.session_id) q tail i entry l.1 (ground arith) at in
          let next_apart = link-apart entry.next q f.session_id ends.1 distinct.0 in
          rw there (
            (elim ends.0 [
              | inl (first, back) ↦
                  let follows =
                    head_of-drop_id d (some f.session_id) q tail i entry l.1 distinct.2 at first in
                  ground (arith, closed f.session_id, l.0, next_apart, back, follows)
              | inr (p, back, inside, not_first) ↦
                  let back_apart =
                    link-apart entry.previous q f.session_id (inr (p, back, inside)) distinct.0 in
                  let kept = head_kept-drop_id q i not_first in
                  ground (arith, closed f.session_id, l.0, next_apart, back_apart, kept)
            ]),
            Linked-drop_id d e (some f.session_id) q tail i entry l.1 distinct.2
                (λ p at_f. ground arith) (ground arith) at closed,
          )
    ]
