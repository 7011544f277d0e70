-- ===== src/Client/Entries/Walks.antt =====
-- The entry loops of MiniMonClient/src/trace end, and stay within the payload.
use minifilter_monitor.Common.{
  ℕ, zero, suc, ◌+◌, ◌-◌, ◌≤◌, ◌<◌, ◌≡◌, ◌≢◌, ◌⊎◌, codes, refl, ap, sym, ◌∙◌, Bool, true, false,
  List, [], ◌∷◌, ◌++◌, ◌==◌, ==_iff, length, take, flatten, Option, none, some, arith, Bool-cases,
  inl, inr, append_assoc, append-nil, if◌then◌else◌,
}
use minifilter_monitor.Client.Text.{mark_truncated}
use minifilter_monitor.Client.Payload.{advance, fits}
use minifilter_monitor.Client.Entries.{Entry, Walk, walk, finish, render_entries}

abbrev pub Body : Type 0
Body = List ℕ → ℕ → ℕ → Entry

-- The texts of the entries from an offset on, and whether the last one says that it is the last.
pub data Chain (body : Body) (payload : List ℕ) : ℕ → ℕ → List (List ℕ) → Bool → Type 0 where
  cut :
      {offset index : ℕ}
      → body payload offset index ≡ Entry.stop
      → Chain body payload offset index [] false
  last :
      {offset index : ℕ} {text : List ℕ}
      → body payload offset index ≡ Entry.entry text 0
      → Chain body payload offset index (text ∷ []) true
  past :
      {offset index next : ℕ} {text : List ℕ}
      → body payload offset index ≡ Entry.entry text next
      → next ≢ 0
      → length payload < offset + next
      → Chain body payload offset index (text ∷ []) false
  further :
      {offset index next : ℕ} {text : List ℕ} {texts : List (List ℕ)} {terminated : Bool}
      → body payload offset index ≡ Entry.entry text next
      → next ≢ 0
      → offset + next ≤ length payload
      → Chain body payload (offset + next) (suc index) texts terminated
      → Chain body payload offset index (text ∷ texts) terminated

-- The body never takes a subspan outside the payload.
abbrev pub IsSafeBody : Body → Type 0
IsSafeBody body =
    (payload : List ℕ) (offset index : ℕ) → body payload offset index ≢ Entry.undefined

advance-cases :
    (payload : List ℕ) (offset stride : ℕ)
    → offset ≤ length payload
    → ((advance payload offset stride ≡ none) × (length payload < offset + stride))
      ⊎ ((advance payload offset stride ≡ some (offset + stride))
          × (offset + stride ≤ length payload))
unfolding advance fits
advance-cases payload offset stride h = elim (Bool-cases (fits payload offset stride)) [
  | inl inside ↦ inr (ground (arith, inside), ground (arith, inside))
  | inr outside ↦ inl (ground (arith, outside), ground (arith, outside))
]

Entry-cases :
    (e : Entry)
    → (e ≡ Entry.stop)
      ⊎ (e ≡ Entry.undefined)
      ⊎ ((text : List ℕ) × (next : ℕ) × (e ≡ Entry.entry text next))
Entry-cases Entry.stop = inl refl
Entry-cases Entry.undefined = inr (inl refl)
Entry-cases (Entry.entry text next) = inr (inr (text, next, refl))

abbrev Walked : Body → ℕ → List ℕ → ℕ → ℕ → List ℕ → Type 0
Walked body fuel payload offset index result =
    (texts : List (List ℕ)) × (terminated : Bool) × Chain body payload offset index texts terminated
    × (walk body fuel payload offset index result ≡ Walk.ended (result ++ flatten texts) terminated)

module _ (body : Body) (payload : List ℕ) where
  -- The round of an entry that is not the last.
  walk-next :
      (fuel offset index next : ℕ) (result text : List ℕ)
      → body payload offset index ≡ Entry.entry text next
      → next ≢ 0
      → offset ≤ length payload
      → (offset + next ≤ length payload
          → Walked body fuel payload (offset + next) (suc index) (result ++ text))
      → Walked body (suc fuel) payload offset index result
  unfolding walk
  walk-next fuel offset index next result text e more inside continue =
      let test : (next == 0) ≡ false = ground (arith, more) in
      elim (advance-cases payload offset next inside) [
        | inl (none_left, outside) ↦ (
          text ∷ [],
          false,
          past e more outside,
          rw (e, test, none_left, walk)
              (ap (λ r. Walk.ended (result ++ r) false) (sym (append-nil text))),
        )
        | inr (step, within) ↦
            let (texts, terminated, chain, run) = continue within in
            (
              text ∷ texts,
              terminated,
              further e more within chain,
              rw (e, test, step, walk)
                  (run
                    ∙ ap (λ r. Walk.ended r terminated) (append_assoc result text (flatten texts))),
            )
      ]

  walk-Chain :
      IsSafeBody body
      → (fuel offset index : ℕ) (result : List ℕ) → offset ≤ length payload
      → length payload < offset + fuel
      → Walked body fuel payload offset index result
  unfolding walk
  walk-Chain safe zero offset index result inside enough = absurd (omega arith)
  walk-Chain safe (suc fuel) offset index result inside enough =
      elim (Entry-cases (body payload offset index)) [
        | inl e ↦ (
          [],
          false,
          cut e,
          rw (e, walk) (ap (λ r. Walk.ended r false) (sym (append-nil result))),
        )
        | inr (inl e) ↦ absurd (safe payload offset index e)
        | inr (inr (text, next, e)) ↦ elim (Bool-cases (next == 0)) [
          | inl zero_next ↦ (
            text ∷ [],
            true,
            last (e ∙ ap (Entry.entry text) ((==_iff _ _).0 zero_next)),
            rw (e, zero_next, walk)
                (ap (λ r. Walk.ended (result ++ r) true) (sym (append-nil text))),
          )
          | inr more ↦
              let apart : next ≢ 0 = ground (arith, more) in
              walk-next fuel offset index next result text e apart inside (λ within.
                walk-Chain safe fuel (offset + next) (suc index) (result ++ text) within
                  (omega (arith, apart)))
        ]
      ]

-- The text of a payload that is not empty: the texts of its entries, without the last separator if
-- the last entry says that it is the last, and marked as cut off otherwise.
abbrev pub shown : ℕ → List (List ℕ) → Bool → List ℕ
shown separator_size texts terminated =
    if terminated
    then take (length (flatten texts) - separator_size) (flatten texts)
    else flatten texts ++ codes "..."

abbrev pub IsRendered : Body → ℕ → List ℕ → Option (List ℕ) → Type 0
IsRendered body separator_size payload r =
    (texts : List (List ℕ)) × (terminated : Bool) × Chain body payload 0 1 texts terminated
    × (r ≡ some (shown separator_size texts terminated))

finish-ended :
    (separator_size : ℕ) (texts : List (List ℕ)) (terminated : Bool)
    → finish separator_size (Walk.ended (flatten texts) terminated)
      ≡ some (shown separator_size texts terminated)
unfolding finish mark_truncated
finish-ended separator_size texts true = refl
finish-ended separator_size texts false = refl

pub render_entries-IsRendered :
    (body : Body) (separator_size : ℕ) (payload : List ℕ)
    → IsSafeBody body
    → payload ≢ []
    → IsRendered body separator_size payload (render_entries body separator_size payload)
unfolding render_entries
render_entries-IsRendered body separator_size [] safe filled = absurd (filled refl)
render_entries-IsRendered body separator_size (b ∷ bytes) safe filled =
    let (texts, terminated, chain, run) =
      walk-Chain body (b ∷ bytes) safe (suc (length (b ∷ bytes))) 0 1 [] (omega arith)
        (omega arith) in
    (
      texts,
      terminated,
      chain,
      ap (finish separator_size) run ∙ finish-ended separator_size texts terminated,
    )

pub render_entries-ends :
    (body : Body) (separator_size : ℕ) (payload : List ℕ)
    → IsSafeBody body
    → (text : List ℕ) × (render_entries body separator_size payload ≡ some text)
unfolding render_entries
render_entries-ends body separator_size [] safe = ([], refl)
render_entries-ends body separator_size (b ∷ bytes) safe =
    let (texts, terminated, chain, e) =
      render_entries-IsRendered body separator_size (b ∷ bytes) safe (λ same. cc same) in
    (_, e)
