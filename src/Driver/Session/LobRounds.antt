-- ===== src/Driver/Session/LobRounds.antt =====
-- session.go: the rounds in which large objects are written come to an end.
use Prim.Native.String.{String}
use go_hdb.Prelude.{
  ℕ, zero, suc, ◌+◌, ◌-◌, ◌≤◌, ◌<◌, ◌≡◌, refl, sym, ap, ◌∙◌, Bool, true, false, not, Option, none,
  some, List, [], ◌∷◌, map, arith, leb, ◌==◌, length, length-map, length-drop, if◌then◌else◌, All,
  Bool-cases, inl, inr,
}
use go_hdb.Protocol.Lob.{WriteLobDescr, is_last_data, next_chunk}
use go_hdb.Protocol.Lob.Chunks.{next_chunk-rest, next_chunk-bytes}
use go_hdb.Driver.Session.{
  LobsWritten, ok, Reply, replied, check_ids, same_ids, fetch_all, remove_done, write_rounds,
  and_then, fetched_with, round, after_reply,
}

abbrev pub ids_of : List WriteLobDescr → List ℕ
ids_of = map λ d. d.id

-- The readers of the objects only come to their end.
abbrev pub NoFaults : List WriteLobDescr → Type 0
NoFaults = All λ (d : WriteLobDescr). d.lob_in_descr.rd.fault ≡ none

-- The next chunk of each.
abbrev next_all : ℕ → List WriteLobDescr → List WriteLobDescr
next_all n = map λ d. (next_chunk n d).1

-- The bytes that are left, and one for each object.
abbrev pub left_over : List WriteLobDescr → ℕ
left_over [] = 0
left_over (d ∷ ds) = suc (length d.lob_in_descr.rd.bytes) + left_over ds

module _ {W E : Type 0} (send : List WriteLobDescr → W → Reply E × W) where
  -- A database that answers with the ids of the objects that are not at their end.
  abbrev pub Answers : Type 0
  Answers =
      (ds : List WriteLobDescr) (w : W) → (send ds w).0 ≡ replied (some (ids_of (remove_done ds)))

same_ids-ids_of : (ds : List WriteLobDescr) → same_ids ds (ids_of ds) ≡ true
unfolding same_ids
same_ids-ids_of [] = refl
same_ids-ids_of (d ∷ ds) = ground (arith, same_ids-ids_of ds)

length-ids_of : (ds : List WriteLobDescr) → length (ids_of ds) ≡ length ds
length-ids_of ds = length-map ds (λ (d : WriteLobDescr). d.id)

equal_self : (n : ℕ) → (n == n) ≡ true
equal_self n = ground arith

check_ids-ids_of : {E : Type 0} (ds : List WriteLobDescr) → check_ids {E = E} ds (ids_of ds) ≡ none
unfolding check_ids
check_ids-ids_of ds = rw (length-ids_of ds) (rw (equal_self (length ds), same_ids-ids_of ds) refl)

fetched-some :
    {E : Type 0} (r : Option String × WriteLobDescr) (ds : List WriteLobDescr)
    → r.0 ≡ none
    → fetched_with {E = E} r (ok ds) ≡ ok (r.1 ∷ ds)
fetched-some (none, d) ds h = refl
fetched-some (some x, d) ds h = cc

module _ (n : ℕ) where
  fetch_all-next :
      {E : Type 0} (ds : List WriteLobDescr)
      → NoFaults ds
      → fetch_all {E = E} n ds ≡ ok (next_all n ds)
  unfolding fetch_all
  fetch_all-next [] h = refl
  fetch_all-next {E} (d ∷ ds) (h, hs) =
      ap (λ (r : LobsWritten E (List WriteLobDescr)). fetched_with (next_chunk n d) r)
        (fetch_all-next ds hs)
      ∙ fetched-some (next_chunk n d) (next_all n ds) (next_chunk-rest n d h).0

  remove_done-NoFaults :
      (ds : List WriteLobDescr) → NoFaults ds → NoFaults (remove_done (next_all n ds))
  unfolding remove_done
  remove_done-NoFaults [] h = tt
  remove_done-NoFaults (d ∷ ds) (h, hs) =
      elim (is_last_data (next_chunk n d).1.opt)
        as (λ b. NoFaults (
          if b
          then remove_done (next_all n ds)
          else (next_chunk n d).1 ∷ remove_done (next_all n ds))) [
            | true ↦ remove_done-NoFaults ds hs
            | false ↦ ((next_chunk-rest n d h).2, remove_done-NoFaults ds hs)
          ]

  -- Less is left of an object that is not at its end.
  next_chunk-less :
      (d : WriteLobDescr)
      → 0 < n
      → d.lob_in_descr.rd.fault ≡ none
      → is_last_data (next_chunk n d).1.opt ≡ false
      → length (next_chunk n d).1.lob_in_descr.rd.bytes < length d.lob_in_descr.rd.bytes
  next_chunk-less d pos_n h more =
      let full : leb n (length d.lob_in_descr.rd.bytes) ≡ true =
        not_false (leb n (length d.lob_in_descr.rd.bytes)) (sym (next_chunk-rest n d h).3 ∙ more) in
      rw (next_chunk-bytes n d full)
        (rw (length-drop n d.lob_in_descr.rd.bytes) (less (length d.lob_in_descr.rd.bytes) full))
    where
      not_false : (b : Bool) → not b ≡ false → b ≡ true
      not_false true e = refl
      not_false false e = cc

      less : (k : ℕ) → leb n k ≡ true → k - n < k
      less k e = ground arith

  left_over-less :
      (ds : List WriteLobDescr)
      → 0 < n
      → NoFaults ds
      → left_over (remove_done (next_all n ds)) ≤ left_over ds
  unfolding remove_done
  left_over-less [] h k = omega arith
  left_over-less (d ∷ ds) h (k, ks) = elim (Bool-cases (is_last_data (next_chunk n d).1.opt)) [
    | inl e ↦ rw e (omega (arith, left_over-less ds h ks))
    | inr e ↦ rw e (omega (arith, left_over-less ds h ks, next_chunk-less d h k e))
  ]

  left_over-lt :
      (d : WriteLobDescr) (ds : List WriteLobDescr)
      → 0 < n
      → NoFaults (d ∷ ds)
      → left_over (remove_done (next_all n (d ∷ ds))) < left_over (d ∷ ds)
  unfolding remove_done
  left_over-lt d ds h (k, ks) = elim (Bool-cases (is_last_data (next_chunk n d).1.opt)) [
    | inl e ↦ rw e (omega (arith, left_over-less ds h ks))
    | inr e ↦ rw e (omega (arith, left_over-less ds h ks, next_chunk-less d h k e))
  ]

module _ {W E : Type 0} (n : ℕ) (send : List WriteLobDescr → W → Reply E × W) (pos_n : 0 < n)
    (answers : Answers send) where
  -- A round goes on with the objects that are not at their end, and their ids.
  round_lem :
      (again : List WriteLobDescr → List ℕ → W → LobsWritten E W) (ds : List WriteLobDescr) (w : W)
      → NoFaults ds
      → round n send again ds (ids_of ds) w (check_ids {E = E} ds (ids_of ds))
        ≡ again
            (remove_done (next_all n ds))
            (ids_of (remove_done (next_all n ds)))
            (send (next_all n ds) w).1
  round_lem again ds w h =
      ap (round n send again ds (ids_of ds) w) (check_ids-ids_of {E = E} ds)
      ∙ ap
          (λ (r : LobsWritten E (List WriteLobDescr)).
            and_then r λ ds'. after_reply n send again ds' (ids_of ds) (send ds' w))
          (fetch_all-next n {E = E} ds h)
      ∙ ap
          (λ (r : Reply E).
            after_reply n send again (next_all n ds) (ids_of ds) (r, (send (next_all n ds) w).1))
          (answers (next_all n ds) w)

  -- For chunks that are not empty, readers that only come to their end, and a database that answers each
  -- request with the ids of the objects that are not at their end: with rounds for the bytes that are left
  -- and one for each object, the loop comes to its end without an error.
  pub write_rounds-ok :
      (fuel : ℕ) (ds : List WriteLobDescr) (w : W)
      → left_over ds ≤ fuel
      → NoFaults ds
      → (w' : W) × (write_rounds n send fuel ds (ids_of ds) w ≡ ok w')
  unfolding write_rounds
  write_rounds-ok fuel [] w le h = (w, refl)
  write_rounds-ok zero (d ∷ ds) w le h = absurd (omega arith)
  write_rounds-ok (suc fuel) (d ∷ ds) w le h =
      let w₁ : W = (send (next_all n (d ∷ ds)) w).1 in
      let left : List WriteLobDescr = remove_done (next_all n (d ∷ ds)) in
      let (w', e) =
        write_rounds-ok fuel left w₁ (omega (arith, left_over-lt n d ds pos_n h))
          (remove_done-NoFaults n (d ∷ ds) h) in
      (w', round_lem (write_rounds n send fuel) (d ∷ ds) w h ∙ e)
