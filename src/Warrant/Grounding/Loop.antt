-- ===== src/Warrant/Grounding/Loop.antt =====
-- The passes of the grounding loop: what a pass keeps, and why the loop ends.
use ratcheting_consequence_i.Base.{
  ℕ, zero, suc, ◌+◌, ◌≤◌, ◌<◌, String, ◌≡◌, refl, sym, subst, Bool, true, false, List, [], ◌∷◌,
  ◌==◌, contains, length, arith, In, ◌⊎◌, inl, inr, Bool-cases, string_eq, if◌then◌else◌,
}
use ratcheting_consequence_i.Canonical.{Hashing}
use ratcheting_consequence_i.Warrant.Models.{hard, warrant_class_eq}
use ratcheting_consequence_i.Warrant.Lemmas.{WarrantedLemma, lemma_id}
use ratcheting_consequence_i.Warrant.Routes.{Circumstances}
use ratcheting_consequence_i.Warrant.Grounding.{consider, pass, route_stands, ground_from}

-- How many of the lemmas are not grounded.
abbrev pub ungrounded : List WarrantedLemma → List String → ℕ
ungrounded [] g = 0
ungrounded (l ∷ ls) g = (if contains g (lemma_id l) then 0 else 1) + ungrounded ls g

pub ungrounded-le-length :
    (ls : List WarrantedLemma) (g : List String) → ungrounded ls g ≤ length ls
ungrounded-le-length [] g = omega arith
ungrounded-le-length (l ∷ ls) g = ground (arith, ungrounded-le-length ls g)

ungrounded-more :
    (ls : List WarrantedLemma) (x : String) (g : List String)
    → ungrounded ls (x ∷ g) ≤ ungrounded ls g
unfolding contains
ungrounded-more [] x g = omega arith
ungrounded-more (l ∷ ls) x g = ground (arith, ungrounded-more ls x g)

ungrounded-fewer :
    (ls : List WarrantedLemma) (l : WarrantedLemma) (g : List String)
    → In l ls
    → contains g (lemma_id l) ≡ false
    → ungrounded ls (lemma_id l ∷ g) < ungrounded ls g
unfolding contains
ungrounded-fewer [] l g m new = absurd m
ungrounded-fewer (k ∷ ls) l g (inl same) new = ground (arith, ungrounded-more ls (lemma_id l) g)
ungrounded-fewer (k ∷ ls) l g (inr m) new = ground (arith, ungrounded-fewer ls l g m)

module _ (h : Hashing) (c : Circumstances) where
  -- A lemma that a pass leaves alone: grounded, not hard, or without a route that stands.
  abbrev pub IsIdle : List String → WarrantedLemma → Type 0
  IsIdle g l =
      (contains g (lemma_id l) ≡ true)
      ⊎ (((l.support.warrant_class == hard) ≡ false) ⊎ (route_stands h c g l ≡ false))

  -- A lemma that a pass grounds.
  pub record IsGroundable (g : List String) (l : WarrantedLemma) : Type 0 where
    pub new : contains g (lemma_id l) ≡ false
    pub is_hard : (l.support.warrant_class == hard) ≡ true
    pub stands : route_stands h c g l ≡ true

  pub consider-cases :
      (l : WarrantedLemma) (g : List String) (b : Bool)
      → (IsIdle g l × (consider h c l (g, b) ≡ (g, b)))
        ⊎ (IsGroundable g l × (consider h c l (g, b) ≡ (lemma_id l ∷ g, true)))
  unfolding consider
  consider-cases l g b = elim (Bool-cases (contains g (lemma_id l))) [
    | inl old ↦ inl (inl old, ground arith)
    | inr new ↦ elim (Bool-cases (l.support.warrant_class == hard)) [
      | inr weak ↦ inl (inr (inl weak), ground arith)
      | inl strong ↦ elim (Bool-cases (route_stands h c g l)) [
        | inr none_stands ↦ inl (inr (inr none_stands), ground arith)
        | inl stands ↦ inr (record { new = new; is_hard = strong; stands = stands }, ground arith)
      ]
    ]
  ]

  -- What every grounding step keeps, a pass keeps.
  pub pass_rule :
      (P : List String → Type 0) (ls : List WarrantedLemma)
      → ((l : WarrantedLemma) (g : List String)
          → In l ls
          → P g
          → IsGroundable g l
          → P (lemma_id l ∷ g))
      → (g : List String) (b : Bool) → P g
      → P (pass h c ls (g, b)).0
  unfolding pass
  pass_rule P [] keep g b p = p
  pass_rule P (l ∷ ls) keep g b p = elim (consider-cases l g b) [
    | inl (_, e) ↦ rw (e, pass) (pass_rule P ls (λ k f m. keep k f (inr m)) g b p)
    | inr (can, e) ↦
        rw (e, pass)
          (pass_rule P ls (λ k f m. keep k f (inr m)) (lemma_id l ∷ g) true
            (keep l g (inl refl) p can))
  ]

  -- A pass that changed something still reports it.
  pass_stays_changed :
      (ls : List WarrantedLemma) (g : List String) → (pass h c ls (g, true)).1 ≡ true
  unfolding pass
  pass_stays_changed [] g = refl
  pass_stays_changed (l ∷ ls) g = elim (consider-cases l g true) [
    | inl (_, e) ↦ rw (e, pass) (pass_stays_changed ls g)
    | inr (_, e) ↦ rw (e, pass) (pass_stays_changed ls (lemma_id l ∷ g))
  ]

  -- A pass without a change leaves what was grounded, and finds every lemma idle.
  pub pass_unchanged :
      (ls : List WarrantedLemma) (g : List String)
      → (pass h c ls (g, false)).1 ≡ false
      → ((pass h c ls (g, false)).0 ≡ g) × ((l : WarrantedLemma) → In l ls → IsIdle g l)
  unfolding pass
  pass_unchanged [] g same = (refl, λ l m. absurd m)
  pass_unchanged (l ∷ ls) g same = elim (consider-cases l g false) [
    | inl (idle, e) ↦
        let (kept, others) = pass_unchanged ls g (rw (e, pass) at same) in
        (
          rw (e, pass) kept,
          λ k m. elim m [
            | inl first ↦ subst (IsIdle g) (sym first) idle
            | inr later ↦ others k later
          ],
        )
    | inr (_, e) ↦ cc (same, e, pass_stays_changed ls (lemma_id l ∷ g))
  ]

  ungrounded-pass :
      (all_lemmas ls : List WarrantedLemma) (g : List String) (b : Bool)
      → ((l : WarrantedLemma) → In l ls → In l all_lemmas)
      → ungrounded all_lemmas (pass h c ls (g, b)).0 ≤ ungrounded all_lemmas g
  unfolding pass
  ungrounded-pass all_lemmas [] g b within = omega arith
  ungrounded-pass all_lemmas (l ∷ ls) g b within = elim (consider-cases l g b) [
    | inl (_, e) ↦ rw (e, pass) (ungrounded-pass all_lemmas ls g b (λ k m. within k (inr m)))
    | inr (_, e) ↦
        let rest = ungrounded-pass all_lemmas ls (lemma_id l ∷ g) true (λ k m. within k (inr m)) in
        rw (e, pass) (omega (arith, rest, ungrounded-more all_lemmas (lemma_id l) g))
  ]

  -- A pass that changes something leaves fewer lemmas ungrounded.
  ungrounded-falls :
      (all_lemmas ls : List WarrantedLemma) (g : List String)
      → ((l : WarrantedLemma) → In l ls → In l all_lemmas)
      → (pass h c ls (g, false)).1 ≡ true
      → ungrounded all_lemmas (pass h c ls (g, false)).0 < ungrounded all_lemmas g
  unfolding pass
  ungrounded-falls all_lemmas [] g within changed = cc
  ungrounded-falls all_lemmas (l ∷ ls) g within changed = elim (consider-cases l g false) [
    | inl (_, e) ↦
        rw (e, pass)
          (ungrounded-falls all_lemmas ls g (λ k m. within k (inr m)) (rw (e, pass) at changed))
    | inr (can, e) ↦
        let rest = ungrounded-pass all_lemmas ls (lemma_id l ∷ g) true (λ k m. within k (inr m)) in
        rw (e, pass)
          (omega (arith, rest, ungrounded-fewer all_lemmas l g (within l (inl refl)) can.new))
  ]

  -- With fuel above the number of ungrounded lemmas the loop ends with a set that every grounding
  -- step from the start keeps, and in which every lemma is idle.
  pub ground_from_ends :
      (P : List String → Type 0) (fuel : ℕ) (ls : List WarrantedLemma) (g : List String)
      → ((l : WarrantedLemma) (f : List String)
          → In l ls
          → P f
          → IsGroundable f l
          → P (lemma_id l ∷ f))
      → P g
      → ungrounded ls g < fuel
      → P (ground_from h c fuel ls g)
        × ((l : WarrantedLemma) → In l ls → IsIdle (ground_from h c fuel ls g) l)
  unfolding ground_from
  ground_from_ends P zero ls g keep p few = absurd (omega arith)
  ground_from_ends P (suc fuel) ls g keep p few = elim (Bool-cases (pass h c ls (g, false)).1) [
    | inl changed ↦ rw changed (
        ground_from_ends P fuel ls (pass h c ls (g, false)).0 keep (pass_rule P ls keep g false p)
          (omega (arith, ungrounded-falls ls ls g (λ l m. m) changed)))
    | inr same ↦ let (kept, idle) = pass_unchanged ls g same in rw (same, kept) (p, idle)
  ]

  idle_unable : (l : WarrantedLemma) (g : List String) → IsIdle g l → ¬ IsGroundable g l
  idle_unable l g (inl old) can = cc (old, can.new)
  idle_unable l g (inr (inl weak)) can = cc (weak, can.is_hard)
  idle_unable l g (inr (inr fails)) can = cc (fails, can.stands)

  -- A pass over idle lemmas changes nothing.
  pub pass_idle :
      (ls : List WarrantedLemma) (g : List String)
      → ((l : WarrantedLemma) → In l ls → IsIdle g l)
      → pass h c ls (g, false) ≡ (g, false)
  unfolding pass
  pass_idle [] g idle = refl
  pass_idle (l ∷ ls) g idle = elim (consider-cases l g false) [
    | inl (_, e) ↦ rw (e, pass) (pass_idle ls g (λ k m. idle k (inr m)))
    | inr (can, _) ↦ absurd (idle_unable l g (idle l (inl refl)) can)
  ]
