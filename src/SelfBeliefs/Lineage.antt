-- ===== src/SelfBeliefs/Lineage.antt =====
-- The versions of a lineage as a chain, and what the checks of
-- src/ssa/storage/self_belief_repository.py make sure of.
use zero_hdsc.Base.{
  first-insert_by, is_some, is_in, ◌+◌, ◌≤◌, String, Bool, true, false, Option, none, some, List,
  [], ◌∷◌, ◌++◌, ◌≡◌, refl, ap, not, length, arith, eq_iff, str_eq, ok, first, insert_by, order_by,
  Bool-cases, inl, inr,
}
use mathlib.Core.Option.{some-injective}
use mathlib.Core.Path.{subst}
use zero_hdsc.Domain.SelfBeliefs.{SelfBelief, SelfBeliefStatus, candidate, validate_transition}
use zero_hdsc.SelfBeliefs.{
  is_subset, validate_claim, validate_audit_fields, validate_initial, validate_successor,
  newest_first, oldest_first,
}
use zero_hdsc.SelfBeliefs.Transitions.{
  Moves, allowed-Moves, revises, is_revision-revises, same_status-path,
}

module _ {ℓ} {F : Type ℓ} where
  -- A cause, a model and a prompt version are given.
  pub record IsAudited (b : SelfBelief F) : Type 0 where
    pub cause : is_some b.cause_event_id ≡ true
    pub model : is_some b.model ≡ true
    pub prompt : is_some b.prompt_version ≡ true

  -- A first version: a candidate of version 1 without predecessor, named as its lineage, with at
  -- least two events, a cause, a model and a prompt version.
  pub record IsInitial (b : SelfBelief F) : Type 0 where
    pub version : b.version ≡ 1
    pub named : b.id ≡ b.lineage_id
    pub unlinked : b.previous_id ≡ none
    pub status : b.status ≡ SelfBeliefStatus.candidate
    pub audited : IsAudited b
    pub supported : 2 ≤ length b.evidence_event_ids

  -- A next version: linked to the one before, one higher, not earlier, with an allowed change of
  -- status, with all its evidence and counterevidence, and with another claim exactly where a
  -- challenged belief is revised.
  pub record IsSuccessor (a b : SelfBelief F) : Type 0 where
    pub version : b.version ≡ a.version + 1
    pub linked : b.previous_id ≡ some a.id
    pub later : a.updated_at_ms ≤ b.updated_at_ms
    pub moved : Moves a.status b.status
    pub claim : str_eq b.claim a.claim ≡ not (revises a.status b.status)
    pub audited : IsAudited b
    pub supported :
        (x : String) → is_in x a.evidence_event_ids ≡ true → is_in x b.evidence_event_ids ≡ true
    pub contradicted :
        (x : String)
        → is_in x a.counterevidence_event_ids ≡ true
        → is_in x b.counterevidence_event_ids ≡ true

  -- The versions after the first.
  abbrev pub Follows : SelfBelief F → List (SelfBelief F) → Type 0
  Follows a [] = Unit
  Follows a (b ∷ bs) = IsSuccessor a b × Follows b bs

  abbrev pub IsChain : List (SelfBelief F) → Type 0
  IsChain [] = Unit
  IsChain (b ∷ bs) = IsInitial b × Follows b bs

  abbrev pub last_of : SelfBelief F → List (SelfBelief F) → SelfBelief F
  last_of a [] = a
  last_of a (b ∷ bs) = last_of b bs

  abbrev pub head_of : List (SelfBelief F) → Option (SelfBelief F)
  head_of [] = none
  head_of (b ∷ bs) = some (last_of b bs)

  pub Follows-append :
      (a : SelfBelief F) (bs : List (SelfBelief F)) (c : SelfBelief F)
      → Follows a bs
      → IsSuccessor (last_of a bs) c
      → Follows a (bs ++ c ∷ [])
  Follows-append a [] c h k = (k, tt)
  Follows-append a (b ∷ bs) c h k = (h.0, Follows-append b bs c h.1 k)

  pub IsChain-append :
      (bs : List (SelfBelief F)) (a c : SelfBelief F)
      → IsChain bs
      → head_of bs ≡ some a
      → IsSuccessor a c
      → IsChain (bs ++ c ∷ [])
  IsChain-append [] a c h e k = cc
  IsChain-append (b ∷ bs) a c h e k =
      (h.0, Follows-append b bs c h.1 (rw (some-injective (last_of b bs) a e) k))

  Follows-version :
      (a : SelfBelief F) (bs : List (SelfBelief F))
      → Follows a bs
      → a.version ≤ (last_of a bs).version
  Follows-version a [] h = omega arith
  Follows-version a (b ∷ bs) h =
      let ih = Follows-version b bs h.1 in let step = h.0.version in omega arith

  -- Sorted by descending version, the last version of a chain comes first.
  newest-Follows :
      (a : SelfBelief F) (bs : List (SelfBelief F))
      → Follows a bs
      → first (order_by newest_first (a ∷ bs)) ≡ some (last_of a bs)
  unfolding order_by insert_by
  newest-Follows a [] h = refl
  newest-Follows a (b ∷ bs) h =
      let above = Follows-version b bs h.1 in
      let step = h.0.version in
      first-insert_by newest_first a (last_of b bs) (order_by newest_first (b ∷ bs))
        (newest-Follows b bs h.1) (ground (arith, above, step))

  -- Sorted by ascending version, a chain stays as it is.
  oldest-Follows :
      (a : SelfBelief F) (bs : List (SelfBelief F))
      → Follows a bs
      → order_by oldest_first (a ∷ bs) ≡ a ∷ bs
  unfolding order_by insert_by
  oldest-Follows a [] h = refl
  oldest-Follows a (b ∷ bs) h =
      let step = h.0.version in
      let t : oldest_first b a ≡ false = ground (arith, step) in
      rw (oldest-Follows b bs h.1) (rw t refl)

  pub newest-IsChain :
      (bs : List (SelfBelief F)) → IsChain bs → first (order_by newest_first bs) ≡ head_of bs
  unfolding order_by
  newest-IsChain [] h = refl
  newest-IsChain (b ∷ bs) h = newest-Follows b bs h.1

  pub oldest-IsChain : (bs : List (SelfBelief F)) → IsChain bs → order_by oldest_first bs ≡ bs
  unfolding order_by
  oldest-IsChain [] h = refl
  oldest-IsChain (b ∷ bs) h = oldest-Follows b bs h.1

is_subset-is_in :
    (xs ys : List String)
    → is_subset xs ys ≡ true
    → (x : String) → is_in x xs ≡ true
    → is_in x ys ≡ true
unfolding is_subset is_in
is_subset-is_in [] ys h x k = cc
is_subset-is_in (z ∷ xs) ys h x k = elim (Bool-cases (str_eq x z)) [
  | inl e ↦ let same : x ≡ z = ground (arith, e, eq_iff x z) in rw same (ground (arith, h))
  | inr e ↦ is_subset-is_in xs ys (ground (arith, h)) x (ground (arith, e, k))
]

none_lem : (o : Option String) → not (is_some o) ≡ true → o ≡ none
none_lem none h = refl
none_lem (some x) h = cc

linked_lem :
    (o : Option String) (id : String)
    → elim o [ none ↦ false | some x ↦ str_eq x id ] ≡ true
    → o ≡ some id
linked_lem none id h = cc
linked_lem (some x) id h = let same : x ≡ id = ground (arith, h, eq_iff x id) in ap some same

module _ {ℓ} {F : Type ℓ} where
  claim_lem :
      (a b : SelfBelief F)
      → validate_claim a b ≡ ok tt
      → str_eq b.claim a.claim ≡ not (revises a.status b.status)
  claim_lem a b h =
      let same = is_revision-revises a.status b.status in
      subst (λ r. str_eq b.claim a.claim ≡ not r) same (ground (arith, h))

  -- The checks of a first version make it one.
  pub validate_initial-IsInitial :
      (less : F → F → Bool) (most : F) (b : SelfBelief F)
      → validate_initial less most b ≡ ok tt
      → IsInitial b
  unfolding validate_initial validate_audit_fields
  validate_initial-IsInitial less most b h = record {
    version = ground (arith, h);
    named = ground (arith, h, eq_iff b.id b.lineage_id);
    unlinked = none_lem b.previous_id (ground (arith, h));
    status = same_status-path b.status candidate (ground (arith, h));
    audited = record {
      cause = ground (arith, h);
      model = ground (arith, h);
      prompt = ground (arith, h);
    };
    supported = ground (arith, h);
  }

  -- The checks of a next version make it a successor.
  pub validate_successor-IsSuccessor :
      (a b : SelfBelief F)
      → validate_successor a b ≡ ok tt
      → b.version ≡ a.version + 1
      → IsSuccessor a b
  unfolding validate_successor validate_transition validate_audit_fields
  validate_successor-IsSuccessor a b h v = record {
    version = v;
    linked = linked_lem b.previous_id a.id (ground (arith, h));
    later = ground (arith, h);
    moved = allowed-Moves a.status b.status (ground (arith, h));
    claim = claim_lem a b (ground (arith, h));
    audited = record {
      cause = ground (arith, h);
      model = ground (arith, h);
      prompt = ground (arith, h);
    };
    contradicted =
        is_subset-is_in a.counterevidence_event_ids b.counterevidence_event_ids (ground (arith, h));
    supported = is_subset-is_in a.evidence_event_ids b.evidence_event_ids (ground (arith, h));
  }
