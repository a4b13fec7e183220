-- ===== src/Bnc/Session/Silence.antt =====
-- A reply of the ident server that holds USERID but no colon.
use cbbncd.Base.{
  ℕ, ◌≡◌, refl, false, ◌||◌, ◌==◌, [], ◌∷◌, ◌++◌, append_assoc, none, some, by_test, subst, ◌⊎◌,
  inl, inr,
}
use cbbncd.Base.Text.{Bytes, Lacks, codes}
use cbbncd.Util.{find_text}
use cbbncd.Traffic.World.{World, calling, close_socket, stop_poke}
use cbbncd.Bnc.Client.{Outside, Outcome, done}
use cbbncd.Bnc.Ident.{Ident, told, told_of, cut_rest, cut_newlines}
use cbbncd.Bnc.Ident.Reading.{behind_colon-Lacks}
use cbbncd.Bnc.Session.{ident_state, BncSession}
use cbbncd.Bnc.Session.Events.{fd_data, ident_data}

Bytes-cases : (s : Bytes) → (s ≡ []) ⊎ ((x : ℕ) × (xs : Bytes) × (s ≡ x ∷ xs))
Bytes-cases [] = inl refl
Bytes-cases (x ∷ xs) = inr (x, xs, refl)

cut_rest-Lacks : (c : ℕ) (s : Bytes) → Lacks c s → Lacks c (cut_rest s)
unfolding cut_rest
cut_rest-Lacks c [] h = tt
cut_rest-Lacks c (a ∷ s) (e, h) = elim (Bytes-cases (cut_rest s)) [
  | inl all_cut ↦ rw all_cut (
      by_test (λ (t : Bytes). Lacks c t) (a == b'\n' || a == b'\r') [] (a ∷ []) (λ _. tt)
        (λ _. (e, tt)))
  | inr (x, xs, left) ↦ rw left (e, subst (Lacks c) left (cut_rest-Lacks c s h))
]

cut_newlines-Lacks : (c : ℕ) (s : Bytes) → Lacks c s → Lacks c (cut_newlines s)
unfolding cut_newlines
cut_newlines-Lacks c [] h = tt
cut_newlines-Lacks c (a ∷ s) (e, h) = (e, cut_rest-Lacks c s h)

-- A reply that holds USERID and no colon tells nothing.
told-Lacks :
    (buf : Bytes) (place : ℕ)
    → find_text (codes "USERID") (cut_newlines buf) 0 ≡ some place
    → Lacks b':' buf
    → told buf ≡ none
unfolding told told_of
told-Lacks buf place found h =
    rw (told, told_of, found, behind_colon-Lacks _ (cut_newlines-Lacks b':' buf h)) refl

-- The session still waits for its ident, whose socket is closed and whose timer is stopped, and
-- what the client sends is only queued.
abbrev pub Silent :
    Outside → Bytes → Ident → BncSession → World → Outcome (BncSession × World) → Type 0
Silent o data_bytes i s w r =
    (s' : BncSession) × (w' : World) × (r ≡ done (s', w'))
    × (w'.ports ≡ w.ports)
    × (w'.calls ≡ w.calls ++ close_socket i.sockid ∷ stop_poke i.sockid ∷ [])
    × (s'.identp ≡ some (record i { active = false }))
    × (s'.state ≡ ident_state)
    × (fd_data o data_bytes s' w'
        ≡ done (record s' { sendqueue = s.sendqueue ++ data_bytes ∷ [] }, w'))

-- A reply of the ident server in which USERID stands but no colon leaves the session that waits for
-- it waiting: the socket of the ident is closed and its timer stopped, it is not active any more, and
-- what the client sends next is only put behind its queue and not passed on to the site.
pub ident_data-Silent :
    (outside : ℕ → Outside) (o : Outside) (buf data_bytes : Bytes) (place : ℕ) (i : Ident)
    (s : BncSession) (w : World)
    → find_text (codes "USERID") (cut_newlines buf) 0 ≡ some place
    → Lacks b':' buf
    → let waiting = record s { state = ident_state } in
      Silent o data_bytes i waiting w (ident_data outside buf i waiting w)
unfolding ident_data fd_data
ident_data-Silent outside o buf data_bytes place i s w found lacks =
    let s' : BncSession = record s {
      state = ident_state;
      identp = some (record i { active = false });
    } in
    let e : told buf ≡ none = told-Lacks buf place found lacks in
    (
      s',
      calling (stop_poke i.sockid) (calling (close_socket i.sockid) w),
      rw e refl,
      refl,
      append_assoc w.calls (close_socket i.sockid ∷ []) (stop_poke i.sockid ∷ []),
      refl,
      refl,
      refl,
    )
