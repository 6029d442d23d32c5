-- ===== src/Merger/Events.antt =====
-- The event map under the operations of `processData`: storing, taking complete events out, purging.
use zdaq.Base.{
  ℕ, ◌+◌, ◌≤◌, ◌≡◌, refl, ◌∙◌, sym, subst, ◌≢◌, inl, inr, Bool, true, false, not, List, [], ◌∷◌,
  ◌++◌, none, some, length, keep, ltb, ◌==◌, if◌then◌else◌, u64, arith, Bool-cases, Option-cases,
  All,
}
use zdaq.Base.Order.{nat_ord}
use zdaq.Base.Map
use zdaq.Base.Map.{
  Map, keys, find, insert, update, erase, IsSorted, Above, insert-IsSorted, update-IsSorted,
  keep-IsSorted,
}
use zdaq.Base.Entries.{erase_absent, keep-All, keep-All_test, insert-All}
use zdaq.Buffer.{Buffer}
use zdaq.Merger.Data.{push, extended, erase_full, purge_old, purge_all, purged}

abbrev pub Events : Type 0
Events = Map ℕ (List Buffer)

-- The buffers collected so far for an event number.
abbrev pub collected : ℕ → Events → List Buffer
collected gtc ev = elim (find gtc ev) [ none ↦ [] | some dss ↦ dss ]

-- No event waits although it is complete.
abbrev pub NoneFull : ℕ → Events → Type 0
NoneFull d = All (λ e. length e.1 ≢ d)

pub push-IsSorted : (gtc : ℕ) (b : Buffer) (ev : Events) → IsSorted ev → IsSorted (push gtc b ev)
unfolding push
push-IsSorted gtc b ev s =
    ground (arith, insert-IsSorted gtc (b ∷ []) ev s, update-IsSorted gtc (λ v. v ++ b ∷ []) ev s)

pub find-push_self :
    (gtc : ℕ) (b : Buffer) (ev : Events)
    → find gtc (push gtc b ev) ≡ some (collected gtc ev ++ b ∷ [])
unfolding push
find-push_self gtc b ev = elim (Option-cases (find gtc ev)) [
  | inl missing ↦ rw (missing, push, collected) (Map.find-insert_self gtc (b ∷ []) ev missing)
  | inr (dss, there) ↦
      rw (there, push, collected) (Map.find-update_self gtc (λ v. v ++ b ∷ []) ev there)
]

pub find-push_ne :
    (gtc : ℕ) (b : Buffer) (k : ℕ) (ev : Events) → k ≢ gtc → find k (push gtc b ev) ≡ find k ev
unfolding push
find-push_ne gtc b k ev h = elim (Option-cases (find gtc ev)) [
  | inl missing ↦ rw (missing, push) (Map.find-insert_ne gtc (b ∷ []) k ev h)
  | inr (dss, there) ↦ rw (there, push) (Map.find-update_ne gtc (λ v. v ++ b ∷ []) k ev h)
]

-- A buffer that is stored goes behind those of its event, and the other events keep theirs.
pub find-push :
    (gtc : ℕ) (b : Buffer) (k : ℕ) (ev : Events)
    → find k (push gtc b ev) ≡ (if k == gtc then some (collected gtc ev ++ b ∷ []) else find k ev)
find-push gtc b k ev = elim (Bool-cases (k == gtc)) [
  | inl same ↦
      let eq : k ≡ gtc = ground arith in
      rw same (
        subst (λ x. find x (push gtc b ev) ≡ some (collected gtc ev ++ b ∷ [])) (sym eq)
          (find-push_self gtc b ev))
  | inr differ ↦ rw differ (find-push_ne gtc b k ev (λ e. ground arith))
]

update-NoneFull :
    (d k : ℕ) (f : List Buffer → List Buffer) (ev : Events) {v : List Buffer}
    → NoneFull d ev
    → find k ev ≡ some v
    → length (f v) ≢ d
    → NoneFull d (update k f ev)
unfolding update find
update-NoneFull d k f [] h e n = tt
update-NoneFull d k f ((j, w) ∷ ev) {v} h e n = elim (Bool-cases (ltb j k)) [
  | inl below ↦ rw below (h.0, update-NoneFull d k f ev {v = v} h.1 (ground arith) n)
  | inr fine ↦ elim (Bool-cases (ltb k j)) [
    | inl above ↦ rw (fine, above) h
    | inr same ↦
        let e' : w ≡ v = ground arith in
        rw (fine, same) (subst (λ u. length (f u) ≢ d) (sym e') n, h.1)
  ]
]

-- Storing a buffer that does not complete its event leaves no complete event.
pub push-NoneFull :
    (d gtc : ℕ) (b : Buffer) (ev : Events)
    → NoneFull d ev
    → length (collected gtc ev ++ b ∷ []) ≢ d
    → NoneFull d (push gtc b ev)
unfolding push
push-NoneFull d gtc b ev h open_still = elim (Option-cases (find gtc ev)) [
  | inl missing ↦
      rw (missing, push) (insert-All _ gtc (b ∷ []) ev (rw (missing, collected) at open_still) h)
  | inr (dss, there) ↦
      rw (there, push)
        (update-NoneFull d gtc (λ v. v ++ b ∷ []) ev h there (rw (there, collected) at open_still))
]

-- With no complete event nothing is taken out.
pub erase_full_none : (d : ℕ) (ev : Events) → NoneFull d ev → erase_full d ev ≡ ev
unfolding erase_full
erase_full_none d [] h = refl
erase_full_none d ((k, v) ∷ ev) h = ground (arith, erase_full_none d ev h.1)

erase_full-insert :
    (d gtc : ℕ) (dss dss' : List Buffer) (ev : Events)
    → NoneFull d ev
    → find gtc ev ≡ none
    → length dss' ≡ d
    → erase_full d (update gtc (λ _. dss') (insert gtc dss ev)) ≡ ev
unfolding erase_full update insert find
erase_full-insert d gtc dss dss' [] h missing full = ground arith
erase_full-insert d gtc dss dss' ((k, v) ∷ ev) h missing full =
    ground (arith, erase_full-insert d gtc dss dss' ev h.1, erase_full_none d ev h.1)

erase_full-update :
    (d gtc : ℕ) (f : List Buffer → List Buffer) (dss' : List Buffer) (ev : Events) {v : List Buffer}
    → NoneFull d ev
    → find gtc ev ≡ some v
    → length dss' ≡ d
    → erase_full d (update gtc (λ _. dss') (update gtc f ev)) ≡ erase gtc ev
unfolding erase_full update erase find
erase_full-update d gtc f dss' [] h there full = cc
erase_full-update d gtc f dss' ((k, v) ∷ ev) {v = w} h there full =
    ground (arith, erase_full-update d gtc f dss' ev {v = w} h.1, erase_full_none d ev h.1)

-- Once an event is complete, what is taken out of the map is its entry and no other.
pub erase_full-push :
    (d gtc : ℕ) (b : Buffer) (dss' : List Buffer) (ev : Events)
    → NoneFull d ev
    → length dss' ≡ d
    → erase_full d (update gtc (λ _. dss') (push gtc b ev)) ≡ erase gtc ev
unfolding push
erase_full-push d gtc b dss' ev h full = elim (Option-cases (find gtc ev)) [
  | inl missing ↦
      rw (missing, push)
        (erase_full-insert d gtc (b ∷ []) dss' ev h missing full
          ∙ sym (erase_absent gtc ev missing))
  | inr (dss, there) ↦
      rw (there, push) (erase_full-update d gtc (λ v. v ++ b ∷ []) dss' ev h there full)
]

pub purged-IsSorted : (on : Bool) (l : ℕ) (ev : Events) → IsSorted ev → IsSorted (purged on l ev)
unfolding purged purge_old purge_all
purged-IsSorted on l ev s = ground (
  arith,
  keep-IsSorted (λ e. not (ltb (u64 (e.0 + 1000)) (extended l))) ev s,
  keep-IsSorted (λ e. not (ltb 1 e.0)) (keep (λ e. not (ltb (u64 (e.0 + 1000)) (extended l))) ev),
)

pub purged-All {ℓ} :
    (Q : ℕ × List Buffer → Type ℓ) (on : Bool) (l : ℕ) (ev : Events)
    → All Q ev
    → All Q (purged on l ev)
unfolding purged purge_old purge_all
purged-All Q false l ev h = h
purged-All Q true l ev h =
    let recent = keep (λ (e : ℕ × List Buffer). not (ltb (u64 (e.0 + 1000)) (extended l))) ev in
    elim (Bool-cases (ltb 200 (length recent))) [
      | inl many ↦ rw many (keep-All Q (λ e. not (ltb 1 e.0)) recent (keep-All Q _ ev h))
      | inr few ↦ rw few (keep-All Q _ ev h)
    ]

-- A sorted map whose numbers are 0 or 1 has two entries at most.
two_left : (ev : Events) → IsSorted ev → All (λ e. not (ltb 1 e.0) ≡ true) ev → length ev ≤ 2
two_left [] s h = omega arith
two_left (a ∷ []) s h = omega arith
two_left (a ∷ b ∷ []) s h = omega arith
two_left (a ∷ b ∷ c ∷ ev) s h = absurd (ground arith)

-- With purging on, at most 200 events are left waiting.
pub purged_bounded : (l : ℕ) (ev : Events) → IsSorted ev → length (purged true l ev) ≤ 200
unfolding purged purge_old purge_all
purged_bounded l ev s =
    let test = λ (e : ℕ × List Buffer). not (ltb (u64 (e.0 + 1000)) (extended l)) in
    let recent = keep test ev in
    let left =
      two_left (keep (λ e. not (ltb 1 e.0)) recent)
        (keep-IsSorted _ recent (keep-IsSorted test ev s)) (keep-All_test _ recent) in
    ground (arith, left)
