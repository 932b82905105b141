-- ===== src/Claims/Consequences/Bundle.antt =====
-- What `_derive_claim_consequences` of src/rci/core/transitions.py returns.
use ratcheting_consequence_i.Base.{
  String, ◌≡◌, ◌≢◌, refl, sym, ap, subst, ◌∙◌, true, false, not, none, some, List, [], ◌∷◌, ◌++◌,
  map, ◌==◌, contains, arith, In, ◌⊎◌, inl, inr, Bool-cases, if◌then◌else◌, string_eq, ok,
  In-append_left, In-append_right, In-map, map-In,
}
use ratcheting_consequence_i.Base.Order.{le, le_total, string_ord}
use ratcheting_consequence_i.Base.Sort.{sorted, In-sorted, sorted-In}
use ratcheting_consequence_i.Base.Distinct.{IsDistinct, IsDistinct-sorted}
use ratcheting_consequence_i.Base.Fresh.{IsNew, IsNew-none, IsNew-skip, IsNew-take}
use ratcheting_consequence_i.Canonical.{Hashing}
use ratcheting_consequence_i.Claims.{Obligation, obligation_fingerprint}
use ratcheting_consequence_i.Claims.Records.{Claim, Conflict, valid_conflict}
use ratcheting_consequence_i.Claims.Logic.{
  structural_conflict, opposed, make_conflict, ordered_pair, conflict_obligation,
  mandatory_attack_obligation,
}
use ratcheting_consequence_i.Claims.Consequences.{
  Admitted, conflict_ids, attack_discharged, new_conflicts, new_obligations, attack_candidates,
  derive_claim_consequences,
}

abbrev conflict_id_of : Conflict → String
conflict_id_of c = c.id

ordered_pair-differs :
    (a b : String) → a ≢ b → not ((ordered_pair a b).0 == (ordered_pair a b).1) ≡ true
unfolding ordered_pair
ordered_pair-differs a b apart = ground arith

ordered_pair-le : (a b : String) → le (ordered_pair a b).0 (ordered_pair a b).1 ≡ true
unfolding ordered_pair
ordered_pair-le a b = ground (arith, le_total a b)

module _ (h : Hashing) (short : String → String) where
  abbrev print : Obligation → String
  print = obligation_fingerprint h

  new_obligations-IsNew :
      (known : List String) (os : List Obligation)
      → IsNew print known os (new_obligations h short known os)
  unfolding new_obligations
  new_obligations-IsNew known [] = IsNew-none print known
  new_obligations-IsNew known (o ∷ os) = elim (Bool-cases (contains known (print o))) [
    | inl old ↦
        rw (old, new_obligations)
          (IsNew-skip print known o os _ old (new_obligations-IsNew known os))
    | inr new ↦
        rw (new, new_obligations)
          (IsNew-take print known o os _ new (new_obligations-IsNew (print o ∷ known) os))
  ]

  -- The conflicts of the claim with the existing ones that it opposes.
  abbrev opposing : Claim → List Claim → List Conflict
  opposing claim [] = []
  opposing claim (c ∷ cs) =
      let rest = opposing claim cs in
      if opposed h short c claim then make_conflict h short c claim ∷ rest else rest

  structural_conflict-Returns :
      (c claim : Claim)
      → c.id ≢ claim.id
      → structural_conflict h short c claim
        ≡ ok (if opposed h short c claim then some (make_conflict h short c claim) else none)
  unfolding structural_conflict valid_conflict make_conflict
  structural_conflict-Returns c claim apart = elim (Bool-cases (opposed h short c claim)) [
    | inr agree ↦ rw (agree, structural_conflict) refl
    | inl against ↦
        rw
          (
            against,
            structural_conflict,
            ordered_pair-differs c.id claim.id apart,
            ordered_pair-le c.id claim.id,
          )
          refl
  ]

  new_conflicts-IsNew :
      (claim : Claim) (known : List String) (cs : List Claim)
      → ((c : Claim) → In c cs → c.id ≢ claim.id)
      → (found : List Conflict) × (new_conflicts h short claim known cs ≡ ok found)
        × IsNew conflict_id_of known (opposing claim cs) found
  unfolding new_conflicts
  new_conflicts-IsNew claim known [] apart = ([], refl, IsNew-none conflict_id_of known)
  new_conflicts-IsNew claim known (c ∷ cs) apart =
      let made = make_conflict h short c claim in
      let others = λ (x : Claim) (m : In x cs). apart x (inr m) in
      rw (structural_conflict-Returns c claim (apart c (inl refl)))
        (elim (Bool-cases (opposed h short c claim)) [
          | inr agree ↦ rw agree (new_conflicts-IsNew claim known cs others)
          | inl against ↦ rw against (elim (Bool-cases (contains known made.id)) [
            | inl old ↦
                let (found, runs, n) = new_conflicts-IsNew claim known cs others in
                rw old (found, runs, IsNew-skip conflict_id_of known made _ found old n)
            | inr new ↦
                let (found, runs, n) = new_conflicts-IsNew claim (made.id ∷ known) cs others in
                rw new
                  (made ∷ found, rw runs refl, IsNew-take conflict_id_of known made _ found new n)
          ])
        ])

  -- The bundle of a claim: the conflicts with the existing claims that it opposes, and the obligations
  -- that the claim and these conflicts carry.
  pub record IsBundle (st : Admitted) (claim : Claim) (conflicts : List Conflict)
      (obligations : List Obligation) : Type 0 where
    pub conflicts_new : (k : Conflict) → In k conflicts → ¬ In k.id (conflict_ids st.conflicts)
    pub conflicts_once : IsDistinct conflict_id_of conflicts
    pub all_opposed :
        (c : Claim)
        → In c st.claims
        → opposed h short c claim ≡ true
        → In (make_conflict h short c claim).id (conflict_ids st.conflicts)
          ⊎ In (make_conflict h short c claim).id (conflict_ids conflicts)
    pub only_opposed :
        (k : Conflict)
        → In k conflicts
        → (c : Claim) × In c st.claims
          × (opposed h short c claim ≡ true)
          × (k ≡ make_conflict h short c claim)
    pub obligations_new :
        (o : Obligation) → In o obligations → ¬ In (print o) (map print st.obligations)
    pub obligations_once : IsDistinct print obligations
    pub conflicts_pressed :
        (k : Conflict)
        → In k conflicts
        → In (print (conflict_obligation h short k)) (map print st.obligations)
          ⊎ In (print (conflict_obligation h short k)) (map print obligations)
    pub claim_pressed :
        (o : Obligation)
        → mandatory_attack_obligation h short claim ≡ some o
        → attack_discharged h short st claim ≡ false
        → In (print o) (map print st.obligations) ⊎ In (print o) (map print obligations)

  opposing-In :
      (claim c : Claim) (cs : List Claim)
      → In c cs
      → opposed h short c claim ≡ true
      → In (make_conflict h short c claim) (opposing claim cs)
  opposing-In claim c [] m against = absurd m
  opposing-In claim c (x ∷ xs) (inl here) against =
      rw (ap (λ y. opposed h short y claim) (sym here) ∙ against)
        (inl (ap (λ y. make_conflict h short y claim) here))
  opposing-In claim c (x ∷ xs) (inr m) against = elim (Bool-cases (opposed h short x claim)) [
    | inl also ↦ rw also (inr (opposing-In claim c xs m against))
    | inr agree ↦ rw agree (opposing-In claim c xs m against)
  ]

  In-opposing :
      (claim : Claim) (k : Conflict) (cs : List Claim)
      → In k (opposing claim cs)
      → (c : Claim) × In c cs
        × (opposed h short c claim ≡ true)
        × (k ≡ make_conflict h short c claim)
  In-opposing claim k [] m = absurd m
  In-opposing claim k (x ∷ xs) m = elim (Bool-cases (opposed h short x claim)) [
    | inl against ↦
        let there : In k (make_conflict h short x claim ∷ opposing claim xs) = rw against at m in
        elim there [
          | inl here ↦ (x, inl refl, against, here)
          | inr later ↦
              let (c, listed, is, same) = In-opposing claim k xs later in (c, inr listed, is, same)
        ]
    | inr agree ↦
        let (c, listed, is, same) = In-opposing claim k xs (rw agree at m) in
        (c, inr listed, is, same)
  ]

  ids-sorted :
      {A : Type 0} (key id : A → String) (xs : List A) (k : String)
      → In k (map key xs)
      → In k (map key (sorted id xs))
  ids-sorted key id xs k m =
      let (x, listed, same) = In-map key k xs m in
      subst (λ y. In y (map key (sorted id xs))) (sym same)
        (map-In key x (sorted id xs) (sorted-In id x xs listed))

  pressed :
      (st : Admitted) (obligations candidates : List Obligation)
      → IsNew print (map print st.obligations) candidates obligations
      → (o : Obligation) → In o candidates
      → In (print o) (map print st.obligations)
        ⊎ In (print o) (map print (sorted (λ (x : Obligation). x.id) obligations))
  pressed st obligations candidates n o m = elim (n.covered o m) [
    | inl old ↦ inl old
    | inr listed ↦ inr (ids-sorted print (λ (x : Obligation). x.id) obligations (print o) listed)
  ]

  -- For a claim whose identity no existing claim has, deriving its consequences returns its bundle. Each
  -- existing claim that it opposes has a recorded or derived conflict with it, and only such conflicts are
  -- derived; each derived conflict, and the mandatory attack on the claim unless it is discharged, has a
  -- recorded or derived obligation of its fingerprint; and nothing derived is recorded already or derived
  -- twice.
  pub derive_claim_consequences-IsBundle :
      (st : Admitted) (claim : Claim)
      → ((c : Claim) → In c st.claims → c.id ≢ claim.id)
      → (conflicts : List Conflict) × (obligations : List Obligation) × (derive_claim_consequences h
            short st claim
          ≡ ok (conflicts, obligations))
        × IsBundle st claim conflicts obligations
  unfolding derive_claim_consequences attack_candidates
  derive_claim_consequences-IsBundle st claim apart =
      let (found, runs, n) =
        new_conflicts-IsNew claim (conflict_ids st.conflicts) st.claims apart in
      let conflicts = sorted conflict_id_of found in
      let candidates =
        attack_candidates h short st claim ++ map (conflict_obligation h short) conflicts in
      let obligations = new_obligations h short (map print st.obligations) candidates in
      let o_new = new_obligations-IsNew (map print st.obligations) candidates in
      let id_of = λ (o : Obligation). o.id in
      (
        conflicts,
        sorted id_of obligations,
        rw runs refl,
        record {
          conflicts_new = λ k m. n.fresh k (In-sorted conflict_id_of k found m);
          conflicts_once = IsDistinct-sorted conflict_id_of conflict_id_of found n.once;
          all_opposed = λ c m against.
              elim (n.covered (make_conflict h short c claim)
                (opposing-In claim c st.claims m against)) [
                  | inl old ↦ inl old
                  | inr listed ↦ inr (ids-sorted conflict_id_of conflict_id_of found _ listed)
                ];
          only_opposed =
              λ k m. In-opposing claim k st.claims (n.given k (In-sorted conflict_id_of k found m));
          obligations_new = λ o m. o_new.fresh o (In-sorted id_of o obligations m);
          obligations_once = IsDistinct-sorted print id_of obligations o_new.once;
          conflicts_pressed = λ k m.
              pressed st obligations candidates o_new (conflict_obligation h short k) (
                In-append_right _ (attack_candidates h short st claim) _
                  (map-In (conflict_obligation h short) k conflicts m));
          claim_pressed = λ o attacks live. pressed st obligations candidates o_new o (
              In-append_left o (attack_candidates h short st claim) _
                (rw (attacks, live, attack_candidates) (inl refl)));
        },
      )
