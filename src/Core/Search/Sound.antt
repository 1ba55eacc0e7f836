-- ===== src/Core/Search/Sound.antt =====
-- The search finds a choice that fits, and misses none unless its budget ends.
use grevir_core.Common.{
  ℕ, zero, suc, ◌+◌, ◌%◌, ◌^◌, ◌≤◌, ◌<◌, Bool, true, false, List, ◌≡◌, refl, arith, length, set,
  get_or-set_self, get_or-set_ne, length-set, ◌≢◌, subst, sym, ap, ◌∙◌, Bool-cases, inl, inr, ◌==◌,
}
use native.Mathlib.Numerals.{add-one}
use native.Mathlib.Decide.{ℕ_discrete, dec_lt}
use grevir_core.Core.Search.{State, eligible_at, chosen, allowed, tries, visit}
use grevir_core.Core.Search.Fits.{Fits, FitsAt, FitsAt-congr, allowed_sound, allowed_complete}

module _ (eligible : List (List Bool)) (columns : ℕ) (compatible : ℕ → ℕ → Bool) (budget : ℕ) where
  abbrev pub Good : (ℕ → ℕ) → ℕ → Type 0
  Good = Fits eligible columns compatible

  -- No choice that fits `n` units begins with the `u` candidates selected so far.
  abbrev pub Refuted : ℕ → ℕ → List ℕ → Type 0
  Refuted n u selected =
      (choice : ℕ → ℕ) → Good choice n → ((v : ℕ) → v < u → choice v ≡ chosen selected v) → ⊥

  -- What a search of the units from `u` to `n` guarantees, started at `s` and ended at `s'`.
  pub record Ends (n u : ℕ) (s s' : State) (found : Bool) : Type 0 where
    pub keeps : (v : ℕ) → v < u → chosen s'.selected v ≡ chosen s.selected v
    pub room : length s'.selected ≡ length s.selected
    pub finds : found ≡ true → Good (chosen s.selected) u → Good (chosen s'.selected) n
    pub refutes : found ≡ false → s'.exhausted ≡ false → Refuted n u s.selected

  -- After candidate `c` of unit `u` is entered.
  entered :
      (u c : ℕ) (selected : List ℕ)
      → u < length selected
      → c < columns
      → eligible_at eligible u c ≡ true
      → allowed compatible u 0 c selected ≡ true
      → Good (chosen selected) u
      → Good (chosen (set selected u c)) (suc u)
  entered u c selected room lt ok fits good v h = elim (dec_lt v u) [
    | yes p ↦
        FitsAt-congr eligible columns compatible (chosen selected) (chosen (set selected u c)) v
          (λ w le. sym (get_or-set_ne selected c 0 (omega arith))) (good v p)
    | no p ↦
        let now = get_or-set_self selected u c 0 room in
        let here : FitsAt eligible columns compatible (chosen (set selected u c)) u = record {
          in_range = rw now lt;
          is_eligible = rw now ok;
          with_earlier = λ w lw.
              rw (now, get_or-set_ne selected {i = u} {j = w} c 0 (omega arith))
                (allowed_sound compatible u 0 c selected fits w (omega arith) (omega arith));
        } in
        let same : u ≡ v = omega arith in
        subst (FitsAt eligible columns compatible (chosen (set selected u c))) same here
  ]

  Good-congr : (f g : ℕ → ℕ) (n : ℕ) → ((v : ℕ) → v < n → f v ≡ g v) → Good f n → Good g n
  Good-congr f g n same good u h =
      FitsAt-congr eligible columns compatible f g u (λ v le. same v (omega arith)) (good u h)

  -- What the candidates from `c` on, `n` of them, give for unit `u`.
  record Tried (total u n c : ℕ) (s s' : State) (found : Bool) : Type 0 where
    keeps : (v : ℕ) → v < u → chosen s'.selected v ≡ chosen s.selected v
    room : length s'.selected ≡ length s.selected
    finds : found ≡ true → Good (chosen s.selected) u → Good (chosen s'.selected) total
    refutes :
        found ≡ false
        → s'.exhausted ≡ false
        → (choice : ℕ → ℕ) → Good choice total
        → ((v : ℕ) → v < u → choice v ≡ chosen s.selected v)
        → c ≤ choice u
        → choice u < c + n
        → ⊥

  -- Candidate `c` cannot be the choice, so those after it decide.
  skips :
      (total u n c : ℕ) (s s1 s' : State) (found : Bool)
      → s1.selected ≡ s.selected
      → Tried total u n (c + 1) s1 s' found
      → ((choice : ℕ → ℕ)
          → Good choice total
          → ((v : ℕ) → v < u → choice v ≡ chosen s.selected v)
          → choice u ≢ c)
      → Tried total u (suc n) c s s' found
  skips total u n c s s1 s' found same t never = record {
    keeps = λ v h. rw (← same) (t.keeps v h);
    room = rw (← same) t.room;
    finds = λ e good. t.finds e (rw same good);
    refutes = λ e left choice good agree le lt.
        let apart = never choice good agree in
        t.refutes e left choice good (λ v h. rw same (agree v h)) (omega arith) (omega arith);
  }

  kept_by_set :
      (s sin : State) (u c : ℕ)
      → sin.selected ≡ set s.selected u c
      → (v : ℕ) → v < u
      → chosen sin.selected v ≡ chosen s.selected v
  kept_by_set s sin u c in_c v h = rw in_c (get_or-set_ne s.selected c 0 (omega arith))

  -- The budget is spent, so nothing is claimed but what is kept.
  gave_up :
      (total u n c : ℕ) (s s' : State)
      → ((v : ℕ) → v < u → chosen s'.selected v ≡ chosen s.selected v)
      → length s'.selected ≡ length s.selected
      → s'.exhausted ≡ true
      → Tried total u n c s s' false
  gave_up total u n c s s' keeps room spent = record {
    keeps = keeps;
    room = room;
    finds = λ absent. cc;
    refutes = λ f left. cc;
  }

  length_after :
      (selected : List ℕ) (u c total : ℕ)
      → total ≤ length selected
      → total ≤ length (set selected u c)
  length_after selected u c total room = omega (arith, length-set selected u c)

  -- The next unit was reached with candidate `c`, and all units found one.
  took :
      (total u n c : ℕ) (s sin s2 : State)
      → sin.selected ≡ set s.selected u c
      → u < length s.selected
      → c < columns
      → eligible_at eligible u c ≡ true
      → allowed compatible u 0 c s.selected ≡ true
      → Ends total (suc u) sin s2 true
      → Tried total u (suc n) c s s2 true
  took total u n c s sin s2 in_c room lt ok fits e = record {
    keeps = λ v h. e.keeps v (omega arith) ∙ kept_by_set s sin u c in_c v h;
    room = e.room ∙ ap length in_c ∙ length-set s.selected u c;
    finds = λ _ good. e.finds refl (rw in_c (entered u c s.selected room lt ok fits good));
    refutes = λ absent. cc;
  }

  -- The next unit was reached with candidate `c` in vain, and the candidates after it decide.
  retried :
      (total u n c : ℕ) (s sin s2 s' : State) (found : Bool)
      → sin.selected ≡ set s.selected u c
      → u < length s.selected
      → Ends total (suc u) sin s2 false
      → s2.exhausted ≡ false
      → Tried total u n (c + 1) s2 s' found
      → Tried total u (suc n) c s s' found
  retried total u n c s sin s2 s' found in_c room e calm t = record {
    keeps = λ v h. t.keeps v h ∙ back v h;
    room = t.room ∙ e.room ∙ ap length in_c ∙ length-set s.selected u c;
    finds = λ f good.
        t.finds f
          (Good-congr (chosen s.selected) (chosen s2.selected) u (λ v h. sym (back v h)) good);
    refutes = λ f left choice good agree le lt. elim (ℕ_discrete (choice u) c) [
      | yes same ↦ e.refutes refl calm choice good (λ v h. elim (ℕ_discrete v u) [
        | yes last ↦ rw (in_c, last, get_or-set_self s.selected u c 0 room) same
        | no apart ↦ agree v (omega arith) ∙ sym (kept_by_set s sin u c in_c v (omega arith))
      ])
      | no apart ↦
          t.refutes f left choice good (λ v h. agree v h ∙ sym (back v h)) (omega arith)
            (omega arith)
    ];
  }
    where
      back : (v : ℕ) → v < u → chosen s2.selected v ≡ chosen s.selected v
      back v h = e.keeps v (omega arith) ∙ kept_by_set s sin u c in_c v h

  module _ (total u : ℕ) (next : State → Bool × State) (below : u < total)
      (after : (s : State)
        → total ≤ length s.selected
        → Ends total (suc u) s (next s).1 (next s).0) where
    never_ineligible :
        (c : ℕ) (choice : ℕ → ℕ)
        → eligible_at eligible u c ≡ false
        → Good choice total
        → choice u ≢ c
    never_ineligible c choice bad good e =
        let ok : eligible_at eligible u c ≡ true = rw e at ((good u below).is_eligible) in cc

    never_refused :
        (c : ℕ) (selected : List ℕ) (choice : ℕ → ℕ)
        → allowed compatible u 0 c selected ≡ false
        → Good choice total
        → ((v : ℕ) → v < u → choice v ≡ chosen selected v)
        → choice u ≢ c
    never_refused c selected choice bad good agree e =
        let ok = allowed_complete compatible u 0 c selected (λ v le lt.
          rw (← e, ← agree v (omega arith)) ((good u below).with_earlier v (omega arith))) in
        cc

    tries-Tried :
        (n c : ℕ) (s : State)
        → total ≤ length s.selected
        → c + n ≡ columns
        → let r = tries eligible columns compatible budget next u n c s in
          Tried total u n c s r.1 r.0
    unfolding tries
    tries-Tried zero c s room all = record {
      keeps = λ v h. refl;
      room = refl;
      finds = λ e good. cc;
      refutes = λ e left choice good agree le lt. omega arith;
    }
    tries-Tried (suc n) c s room all = elim (Bool-cases (eligible_at eligible u c)) [
      | inr bad ↦
          rw (bad, tries)
            (skips total u n c s s _ _ refl (tries-Tried n (c + 1) s room (omega arith))
              (λ choice good agree. never_ineligible c choice bad good))
      | inl ok ↦ elim (Bool-cases (s.visited == budget)) [
        | inl spent ↦
            rw (ok, tries)
              (rw spent (
                gave_up total u (suc n) c s (record s { exhausted = true }) (λ v h. refl) refl
                  refl))
        | inr more ↦
            let s1 = record s { visited = (s.visited + 1) % 2 ^ 32 } in
            let sin = record s1 { selected = set s.selected u c } in
            elim (Bool-cases (allowed compatible u 0 c s.selected)) [
              | inr clash ↦
                  rw (ok, tries)
                    (rw more (
                      rw clash (
                        skips total u n c s s1 _ _ refl
                          (tries-Tried n (c + 1) s1 room (omega arith))
                          (λ choice good agree.
                            never_refused c s.selected choice clash good agree))))
              | inl fits ↦
                  let inside = length_after s.selected u c total room in
                  elim (Bool-cases (next sin).0) [
                    | inl found ↦
                        rw (ok, tries)
                          (rw more (
                            rw fits (
                              rw found (
                                took total u n c s sin (next sin).1 refl (omega arith) (omega arith)
                                  ok fits (rw found at (after sin inside))))))
                    | inr lost ↦
                        let vain = rw lost at (after sin inside) in
                        elim (Bool-cases (next sin).1.exhausted) [
                          | inl over ↦
                              rw (ok, tries)
                                (rw more (
                                  rw fits (
                                    rw lost (
                                      rw over (
                                        gave_up total u (suc n) c s (next sin).1
                                          (λ v h.
                                            vain.keeps v (omega arith)
                                            ∙ kept_by_set s sin u c refl v h)
                                          (vain.room ∙ length-set s.selected u c) over)))))
                          | inr calm ↦
                              rw (ok, tries)
                                (rw more (
                                  rw fits (
                                    rw lost (
                                      rw calm (
                                        retried total u n c s sin (next sin).1 _ _ refl
                                          (omega arith) vain calm
                                          (tries-Tried n (c + 1) (next sin).1 (rw vain.room inside)
                                            (omega arith)))))))
                        ]
                  ]
            ]
      ]
    ]

  pub visit-Ends :
      (left u total : ℕ) (s : State)
      → u + left ≡ total
      → total ≤ length s.selected
      → let r = visit eligible columns compatible budget left u s in Ends total u s r.1 r.0
  unfolding visit
  visit-Ends zero u total s all room =
      let same : u ≡ total = omega arith in
      record {
        keeps = λ v h. refl;
        room = refl;
        finds = λ _ good. subst (Good (chosen s.selected)) same good;
        refutes = λ absent. cc;
      }
  visit-Ends (suc left) u total s all room =
      let below : u < total = omega arith in
      let next = visit eligible columns compatible budget left (u + 1) in
      let after = λ (s' : State) (h : total ≤ length s'.selected).
        subst (λ k. Ends total k s' (next s').1 (next s').0) (add-one u)
          (visit-Ends left (u + 1) total s' (omega arith) h) in
      let t = tries-Tried total u next below after columns 0 s room (omega arith) in
      record {
        keeps = t.keeps;
        room = t.room;
        finds = t.finds;
        refutes = λ f left choice good agree.
            t.refutes f left choice good agree (omega arith)
              (omega (arith, (good u below).in_range));
      }
