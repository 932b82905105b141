-- ===== src/Warrant/Grounding/Least.antt =====
-- What `grounded_lemma_ids` of src/rci/warrant/support.py computes: the least fixed point of the
-- support routes, told apart from the loop by an inductive definition.
use ratcheting_consequence_i.Base.{
  String, ◌≡◌, sym, subst, true, false, List, [], ◌∷◌, arith, In, inl, inr, ◌↔◌, contains-In,
  subset_sound, subset_complete, any_sound, any_none, string_eq, length, suc, and_parts, ==_iff,
}
use ratcheting_consequence_i.Canonical.{Hashing}
use ratcheting_consequence_i.Warrant.Models.{SupportRoute, hard, warrant_class_eq}
use ratcheting_consequence_i.Warrant.Lemmas.{WarrantedLemma, lemma_id}
use ratcheting_consequence_i.Warrant.Routes.{Circumstances, route_applicable}
use ratcheting_consequence_i.Warrant.Grounding.{
  pass, route_grounded, route_stands, grounded_lemma_ids,
}
use ratcheting_consequence_i.Warrant.Grounding.Loop.{
  IsGroundable, IsIdle, ground_from_ends, pass_idle, ungrounded-le-length,
}

-- A lemma is grounded by one applicable route of a hard lemma whose required dependencies are all
-- grounded.
pub data Grounded (h : Hashing) (c : Circumstances) (ls : List WarrantedLemma)
    : String → Type 0 where
  by_route :
      (l : WarrantedLemma) (r : SupportRoute)
      → In l ls
      → l.support.warrant_class ≡ hard
      → In r l.support.support_routes
      → route_applicable h c l r ≡ true
      → ((d : String) → In d r.required_dependency_ids → Grounded h c ls d)
      → Grounded h c ls (lemma_id l)

module _ (h : Hashing) (c : Circumstances) (ls : List WarrantedLemma) where
  AllGrounded : List String → Type 0
  AllGrounded g = (x : String) → In x g → Grounded h c ls x

  step_sound :
      (l : WarrantedLemma) (g : List String)
      → In l ls
      → AllGrounded g
      → IsGroundable h c g l
      → AllGrounded (lemma_id l ∷ g)
  unfolding AllGrounded route_stands route_grounded
  step_sound l g m before can x (inr old) = before x old
  step_sound l g m before can x (inl new) =
      let (r, listed, works) = any_sound _ l.support.support_routes can.stands in
      let (applies, supplied) = and_parts works in
      subst (Grounded h c ls) (sym new) (
        by_route l r m ((==_iff l.support.warrant_class hard).0 can.is_hard) listed applies
          (λ d needed. before d (subset_sound r.required_dependency_ids g supplied d needed)))

  closed :
      (g : List String)
      → ((l : WarrantedLemma) → In l ls → IsIdle h c g l)
      → (x : String) → Grounded h c ls x
      → In x g
  unfolding route_stands route_grounded
  closed g idle _ (by_route l r m is_hard listed applies needs) = elim (idle l m) [
    | inl old ↦ contains-In g (lemma_id l) old
    | inr (inl weak) ↦ ground arith
    | inr (inr none_stands) ↦
        let supplied =
          subset_complete r.required_dependency_ids g
            (λ d needed. closed g idle d (needs d needed)) in
        let fails = any_none _ r l.support.support_routes none_stands listed in ground arith
  ]

  -- The loop of grounding ends within the fuel, one pass more than there are lemmas: a further pass
  -- over its result changes nothing. The result holds exactly the identities that are grounded by the
  -- inductive definition: those of hard lemmas with an applicable route whose dependencies are grounded
  -- in turn. It is the least fixed point.
  pub grounded_lemma_ids-Grounded :
      (pass h c ls (grounded_lemma_ids h c ls, false) ≡ (grounded_lemma_ids h c ls, false))
      × ((x : String) → In x (grounded_lemma_ids h c ls) ↔ Grounded h c ls x)
  unfolding grounded_lemma_ids AllGrounded
  grounded_lemma_ids-Grounded =
      let (sound, idle) =
        ground_from_ends h c AllGrounded (suc (length ls)) ls [] step_sound (λ x m. absurd m)
          (omega (arith, ungrounded-le-length ls [])) in
      (pass_idle h c ls _ idle, λ x. (sound x, closed _ idle x))

-- More lemmas ground no less.
Grounded-more :
    (h : Hashing) (c : Circumstances) (ls more : List WarrantedLemma)
    → ((l : WarrantedLemma) → In l ls → In l more)
    → (x : String) → Grounded h c ls x
    → Grounded h c more x
Grounded-more h c ls more within _ (by_route l r m is_hard listed applies needs) =
    by_route l r (within l m) is_hard listed applies
      (λ d needed. Grounded-more h c ls more within d (needs d needed))

-- If every one of the first lemmas is among the second ones, then every identity grounded over the
-- first is grounded over the second: the order of the lemmas and repetitions do not matter, and a
-- lemma taken away never grounds another.
pub grounded_lemma_ids_monotone :
    (h : Hashing) (c : Circumstances) (ls more : List WarrantedLemma)
    → ((l : WarrantedLemma) → In l ls → In l more)
    → (x : String) → In x (grounded_lemma_ids h c ls)
    → In x (grounded_lemma_ids h c more)
grounded_lemma_ids_monotone h c ls more within x m =
    ((grounded_lemma_ids-Grounded h c more).1 x).1
      (Grounded-more h c ls more within x (((grounded_lemma_ids-Grounded h c ls).1 x).0 m))

-- Identities each of whose lemmas needs, on every route, another of these identities.
abbrev pub IsUnseeded : (String → Type 0) → List WarrantedLemma → Type 0
IsUnseeded S ls =
    (l : WarrantedLemma) (r : SupportRoute)
    → In l ls
    → S (lemma_id l)
    → In r l.support.support_routes
    → (d : String) × In d r.required_dependency_ids × S d

Grounded-seeded :
    (h : Hashing) (c : Circumstances) (S : String → Type 0) (ls : List WarrantedLemma)
    → IsUnseeded S ls
    → (x : String) → Grounded h c ls x
    → ¬ S x
Grounded-seeded h c S ls around _ (by_route l r m is_hard listed applies needs) inside =
    let (d, needed, again) = around l r m inside listed in
    Grounded-seeded h c S ls around d (needs d needed) again

-- An unsupported cycle contributes nothing: when every route of every lemma of some identities
-- requires one of these identities again, grounding grounds none of them.
pub grounded_lemma_ids_no_cycle :
    (h : Hashing) (c : Circumstances) (S : String → Type 0) (ls : List WarrantedLemma)
    → IsUnseeded S ls
    → (x : String) → In x (grounded_lemma_ids h c ls)
    → ¬ S x
grounded_lemma_ids_no_cycle h c S ls around x m =
    Grounded-seeded h c S ls around x (((grounded_lemma_ids-Grounded h c ls).1 x).0 m)
