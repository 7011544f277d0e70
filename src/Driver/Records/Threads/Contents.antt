-- ===== src/Driver/Records/Threads/Contents.antt =====
-- MiniMonFlt/src/records.cpp with its callers on several threads: where each record is.
use minifilter_monitor.Common.{
  ℕ, ◌≤◌, ◌<◌, ◌≡◌, refl, sym, ap, subst, ◌∙◌, List, [], ◌∷◌, ◌++◌, arith, length, length-append,
  append_assoc,
}
use mathlib.Core.List.{Perm, perm_middle}
use mathlib.Core.List.Perm
use minifilter_monitor.Protocol.{Record}
use minifilter_monitor.Driver.Records.{Store, free_entry, remove_head, insert_head, append}
use minifilter_monitor.Driver.Records.Threads.{
  System, Step, Reach, here, next, claim, refuse, no_memory, give_up, count_drop, obtain, appends,
  deletes, frees, removes, puts_back, takes, resets, stamp, listed, started,
}

-- What was taken out, what removals hold, and the list.
abbrev pub contents : System → List Record
contents s = s.taken ++ (s.removed ++ s.store.list)

abbrev Conserved : System → Type 0
Conserved s = Perm (contents s) s.appended

-- An entry in a removal's hands, before everything else.
fetched :
    (taken xs ys list : List Record) (e : Record)
    → Perm (taken ++ ((xs ++ (e ∷ ys)) ++ list)) (e ∷ (taken ++ ((xs ++ ys) ++ list)))
fetched taken xs ys list e =
    Perm.trans (Perm.append_left taken (Perm.append_right list (perm_middle xs ys)))
      (perm_middle taken ((xs ++ ys) ++ list))

returned :
    (taken removed list : List Record) (e : Record)
    → Perm (e ∷ (taken ++ (removed ++ list))) (taken ++ (removed ++ (e ∷ list)))
returned taken removed list e = Perm.symm (
    Perm.trans (Perm.append_left taken (perm_middle removed list))
      (perm_middle taken (removed ++ list)))

kept :
    (taken removed list : List Record) (e : Record)
    → Perm (e ∷ (taken ++ (removed ++ list))) ((taken ++ (e ∷ [])) ++ (removed ++ list))
kept taken removed list e =
    subst (Perm (e ∷ (taken ++ (removed ++ list))))
      (sym (append_assoc taken (e ∷ []) (removed ++ list)))
      (Perm.symm (perm_middle taken (removed ++ list)))

appended_last :
    (taken removed list : List Record) (e : Record)
    → taken ++ (removed ++ (list ++ (e ∷ []))) ≡ (taken ++ (removed ++ list)) ++ (e ∷ [])
appended_last taken removed list e =
    simp (append_assoc taken (removed ++ list) (e ∷ []), append_assoc removed list (e ∷ []))

moved :
    (taken removed : List Record) (st : Store) (l : List Record)
    → st.list ≡ l
    → Perm
        (taken ++ (listed (remove_head st).0 removed ++ (remove_head st).1.list))
        (taken ++ (removed ++ l))
unfolding remove_head
moved taken removed st [] e = rw e (Perm.refl _)
moved taken removed st (x ∷ l) e = rw e (Perm.symm (Perm.append_left taken (perm_middle removed l)))

removed_head :
    (s : System)
    → Conserved s
    → Conserved (record s {
      store = (remove_head s.store).1;
      removed = listed (remove_head s.store).0 s.removed;
    })
unfolding remove_head
removed_head s v = Perm.trans (moved s.taken s.removed s.store s.store.list refl) v

-- What a step does to the contents.
Step-Conserved :
    {threads removals : ℕ} {s t : System} → Step threads removals s t → Conserved s → Conserved t
unfolding free_entry remove_head insert_head append
Step-Conserved (claim h o e) v = subst Conserved (sym e) v
Step-Conserved (refuse h o e) v = subst Conserved (sym e) v
Step-Conserved (no_memory c h e) v = subst Conserved (sym e) v
Step-Conserved (give_up r h e) v = subst Conserved (sym e) v
Step-Conserved (count_drop d h e) v = subst Conserved (sym e) v
Step-Conserved (obtain c h e) v = subst Conserved (sym e) v
Step-Conserved {s = s} (appends r h q e) v = subst Conserved (sym e) (
    subst (λ l. Perm l (s.appended ++ (stamp s.store r ∷ [])))
      (sym (appended_last s.taken s.removed s.store.list (stamp s.store r)))
      (Perm.append_right (stamp s.store r ∷ []) v))
Step-Conserved (deletes h q e) v = subst Conserved (sym e) v
Step-Conserved (frees f h e) v = subst Conserved (sym e) v
Step-Conserved {s = s} (removes h e) v = subst Conserved (sym e) (removed_head s v)
Step-Conserved {s = s} (puts_back r xs ys h e) v = subst Conserved (sym e) (
    Perm.trans (Perm.symm (returned s.taken (xs ++ ys) s.store.list r)) (
      Perm.trans (Perm.symm (fetched s.taken xs ys s.store.list r))
        (subst (λ l. Perm (s.taken ++ (l ++ s.store.list)) s.appended) h v)))
Step-Conserved {s = s} (takes r xs ys h e) v = subst Conserved (sym e) (
    Perm.trans (Perm.symm (kept s.taken (xs ++ ys) s.store.list r)) (
      Perm.trans (Perm.symm (fetched s.taken xs ys s.store.list r))
        (subst (λ l. Perm (s.taken ++ (l ++ s.store.list)) s.appended) h v)))
Step-Conserved (resets e) v = subst Conserved (sym e) v

-- However callers and overlapping removals interleave, the records taken out, those in the hands of
-- removals and the list are together the appended records: none is lost or doubled.
pub records_conserved :
    {threads removals kb : ℕ} {s : System}
    → Reach threads removals (started kb) s
    → Perm (s.taken ++ (s.removed ++ s.store.list)) s.appended
records_conserved here = Perm.refl []
records_conserved (next r st) = Step-Conserved st (records_conserved r)

-- With one removal at a time.
abbrev Ordered : System → Type 0
Ordered s = (length s.removed ≤ 1) × (contents s ≡ s.appended)

only : (xs ys : List Record) (e : Record) → length (xs ++ (e ∷ ys)) ≤ 1 → (xs ≡ []) × (ys ≡ [])
only [] [] e h = (refl, refl)
only [] (y ∷ ys) e h = absurd (omega arith)
only (x ∷ xs) ys e h = absurd (omega (arith, length-append xs (e ∷ ys)))

fewer : (l : List Record) → length l < 1 → l ≡ []
fewer [] h = refl
fewer (x ∷ l) h = absurd (omega arith)

moved_alone :
    (taken : List Record) (st : Store) (l : List Record)
    → st.list ≡ l
    → (length (listed (remove_head st).0 []) ≤ 1)
      × (taken ++ (listed (remove_head st).0 [] ++ (remove_head st).1.list) ≡ taken ++ l)
unfolding remove_head
moved_alone taken st [] e = rw e (omega arith, refl)
moved_alone taken st (x ∷ l) e = rw e (omega arith, refl)

alone_removed :
    (s : System)
    → s.removed ≡ []
    → Ordered s
    → Ordered (record s {
      store = (remove_head s.store).1;
      removed = listed (remove_head s.store).0 s.removed;
    })
alone_removed s e v =
    let (few, same) = moved_alone s.taken s.store s.store.list refl in
    (rw e few, rw e same ∙ ap (λ l. s.taken ++ (l ++ s.store.list)) (sym e) ∙ v.1)

Step-Ordered : {threads : ℕ} {s t : System} → Step threads 1 s t → Ordered s → Ordered t
unfolding free_entry remove_head insert_head append
Step-Ordered (claim h o e) v = subst Ordered (sym e) v
Step-Ordered (refuse h o e) v = subst Ordered (sym e) v
Step-Ordered (no_memory c h e) v = subst Ordered (sym e) v
Step-Ordered (give_up r h e) v = subst Ordered (sym e) v
Step-Ordered (count_drop d h e) v = subst Ordered (sym e) v
Step-Ordered (obtain c h e) v = subst Ordered (sym e) v
Step-Ordered {s = s} (appends r h q e) v = subst Ordered (sym e) (
  v.0,
  appended_last s.taken s.removed s.store.list (stamp s.store r)
      ∙ ap (λ l. l ++ (stamp s.store r ∷ [])) v.1,
)
Step-Ordered (deletes h q e) v = subst Ordered (sym e) v
Step-Ordered (frees f h e) v = subst Ordered (sym e) v
Step-Ordered {s = s} (removes h e) v = subst Ordered (sym e) (alone_removed s (fewer s.removed h) v)
Step-Ordered {s = s} (puts_back r xs ys h e) v =
    let (a, b) = only xs ys r (subst (λ l. length l ≤ 1) h v.0) in ground (arith, a, b)
Step-Ordered {s = s} (takes r xs ys h e) v =
    let (a, b) = only xs ys r (subst (λ l. length l ≤ 1) h v.0) in
    ground (arith, a, b, append_assoc s.taken (r ∷ []) s.store.list)
Step-Ordered (resets e) v = subst Ordered (sym e) v

Reach-Ordered : {threads kb : ℕ} {s : System} → Reach threads 1 (started kb) s → Ordered s
Reach-Ordered here = (omega arith, refl)
Reach-Ordered (next r st) = Step-Ordered st (Reach-Ordered r)

-- Where at most one removal holds an entry at a time, they are so in order: the records taken out,
-- then the one in its hands, then the list, are the appended records, and none is overtaken.
pub order_kept :
    {threads kb : ℕ} {s : System}
    → Reach threads 1 (started kb) s
    → s.taken ++ (s.removed ++ s.store.list) ≡ s.appended
order_kept r = (Reach-Ordered r).1
