-- ===== src/Device/Settled.antt =====
-- internal/authapp/device.go: what a run of calls promises of the logins in the table.
use sandcastle_incus.Prelude.{
  ◌≡◌, refl, sym, ◌∙◌, ap, subst, arith, ℕ, ◌≤◌, ◌<◌, Bool, true, false, List, [], ◌∷◌, some,
  find_first, ltb, All, All-imp, Bool-cases, ◌⊎◌, inl, inr, ok,
}
use sandcastle_incus.Prelude.Text.{Text, teq, eq_of_teq, trim_space}
use sandcastle_incus.Device.Logins.{
  DeviceRow, has_device_code, find_device_login_by_device_code, update_where, expire, is_pending,
  poll_device_login, device_status_approved, device_status_pending, rfc3339,
}
use sandcastle_incus.Device.Moves.{Move, Follows, IsKeyed, found_first}
use sandcastle_incus.Device.Runs.{Event, step, run, step-Follows}
use sandcastle_incus.Device.Keyed.{step-IsKeyed}

-- A row that is not pending is found again after the rows moved.
Move-code : (now : ℕ) (r r' : DeviceRow) → Move now r r' → r'.device_code ≡ r.device_code
Move-code now _ _ (Move.stay r) = refl
Move-code now _ _ (Move.expiring r p l) = refl
Move-code now _ _ (Move.approving r k d i p l) = refl
Move-code now _ _ (Move.denying r p) = refl

Move-settled : (now : ℕ) (r r' : DeviceRow) → Move now r r' → is_pending r ≡ false → r ≡ r'
Move-settled now _ _ (Move.stay r) h = refl
Move-settled now _ _ (Move.expiring r p l) h = cc
Move-settled now _ _ (Move.approving r k d i p l) h = cc
Move-settled now _ _ (Move.denying r p) h = cc

find_moved :
    (now : ℕ) (code : Text) (rows rows' : List DeviceRow) (login : DeviceRow)
    → Follows now rows rows'
    → find_first (has_device_code code) rows ≡ some login
    → is_pending login ≡ false
    → find_first (has_device_code code) rows' ≡ some login
find_moved now code [] rows' login f e h = cc
find_moved now code (r ∷ rows) [] login f e h = absurd f
find_moved now code (r ∷ rows) (r' ∷ rows') login (m, f) e h =
    elim (Bool-cases (teq r.device_code code)) [
      | inl is ↦
          let same = row_eq r login (rw is at e) in
          let settled =
            Move-settled now r r' m
              (subst (λ (x : DeviceRow). is_pending x ≡ false) (sym same) h) in
          let hit : teq r'.device_code code ≡ true =
            subst (λ c. teq c code ≡ true) (sym (Move-code now r r' m)) is in
          rw hit (ap some (sym settled ∙ same))
      | inr other ↦
          let miss : teq r'.device_code code ≡ false =
            subst (λ c. teq c code ≡ false) (sym (Move-code now r r' m)) other in
          rw miss (find_moved now code rows rows' login f (rw other at e) h)
    ]
  where
    row_eq : (x y : DeviceRow) → some x ≡ some y → x ≡ y
    row_eq x y g = cc

-- In a table with unique codes, a login that is not pending is found unchanged under its device
-- code after any calls of create, poll, approve and deny.
pub run_settled :
    (events : List (ℕ × Event)) (code : Text) (rows : List DeviceRow) (login : DeviceRow)
    → IsKeyed rows
    → find_device_login_by_device_code code rows ≡ some login
    → is_pending login ≡ false
    → find_device_login_by_device_code code (run events rows) ≡ some login
unfolding run find_device_login_by_device_code
run_settled [] code rows login keyed e h = e
run_settled ((now, event) ∷ events) code rows login keyed e h =
    run_settled events code (step now event rows) login (step-IsKeyed now event rows keyed)
      (find_moved now (trim_space code) rows (step now event rows) login
        (step-Follows now event rows keyed) e h)
      h

-- The row after an update of the row that was found.
find_updated :
    (here : DeviceRow → Bool) (set : DeviceRow → DeviceRow) (rows : List DeviceRow)
    (login : DeviceRow)
    → find_first here rows ≡ some login
    → here (set login) ≡ true
    → find_first here (update_where here set rows) ≡ some (set login)
unfolding update_where
find_updated here set [] login e h = cc
find_updated here set (r ∷ rows) login e h = elim (Bool-cases (here r)) [
  | inl is ↦ let same = row_eq r login (rw is at e) in rw (is, same, h) refl
  | inr other ↦ rw (other, other) (find_updated here set rows login (rw other at e) h)
]
  where
    row_eq : (x y : DeviceRow) → some x ≡ some y → x ≡ y
    row_eq x y g = cc

not_early : (now expires : ℕ) → expires ≤ now → ltb now expires ≡ false
not_early now expires h = ground arith

expire-not_pending : (r : DeviceRow) → is_pending (expire r) ≡ false
unfolding teq
expire-not_pending r = refl

-- What a poll of a login that is due returns, and what it leaves.
poll_due :
    (code : Text) (now : ℕ) (rows : List DeviceRow) (login : DeviceRow)
    → find_device_login_by_device_code code rows ≡ some login
    → login.expires_at ≤ now
    → (answer : DeviceRow) × (is_pending answer ≡ false)
      × (poll_device_login code now rows ≡ ok (answer, step now (Event.poll code) rows))
      × (find_device_login_by_device_code code (step now (Event.poll code) rows) ≡ some answer)
unfolding step poll_device_login find_device_login_by_device_code
poll_due code now rows login e due =
    let early = not_early now login.expires_at due in
    elim (Bool-cases (is_pending login)) [
      | inl pending ↦
          let hit = found_first (has_device_code (trim_space code)) rows login e in
          (
            expire login,
            expire-not_pending login,
            rw (e, pending, early) refl,
            rw (e, pending, early)
                (subst
                  (λ c.
                    find_first (has_device_code (trim_space code))
                      (update_where (has_device_code c) expire rows)
                    ≡ some (expire login))
                  (sym (eq_of_teq _ _ hit))
                  (find_updated (has_device_code (trim_space code)) expire rows login e hit)),
          )
      | inr other ↦ (login, other, rw (e, other) refl, rw (e, other) e)
    ]

-- In a table with unique codes, a poll of a login at or after its expiry returns a login that is
-- not pending, and the table has exactly that login under the code after every further sequence of
-- calls.
pub poll_settles :
    (code : Text) (now : ℕ) (rows : List DeviceRow) (login : DeviceRow) (events : List (ℕ × Event))
    → IsKeyed rows
    → find_device_login_by_device_code code rows ≡ some login
    → login.expires_at ≤ now
    → (answer : DeviceRow) × (is_pending answer ≡ false)
      × (poll_device_login code now rows ≡ ok (answer, step now (Event.poll code) rows))
      × (find_device_login_by_device_code code (run events (step now (Event.poll code) rows))
          ≡ some answer)
poll_settles code now rows login events keyed e due =
    let (answer, settled, answered, found) = poll_due code now rows login e due in
    (
      answer,
      settled,
      answered,
      run_settled events code (step now (Event.poll code) rows) answer
          (step-IsKeyed now (Event.poll code) rows keyed) found settled,
    )

-- An approved login was approved before it was due.
abbrev pub IsTimely : DeviceRow → Type 0
IsTimely r =
    (teq r.status device_status_approved ≡ false)
    ⊎ ((t : ℕ) × (r.approved_at ≡ some t) × (t < r.expires_at))

rfc3339-le : (t : ℕ) → rfc3339 t ≤ t
unfolding rfc3339
rfc3339-le t = omega arith

Move-IsTimely : (now : ℕ) (r r' : DeviceRow) → Move now r r' → IsTimely r → IsTimely r'
unfolding teq
Move-IsTimely now _ _ (Move.stay r) h = h
Move-IsTimely now _ _ (Move.expiring r p l) h = inl refl
Move-IsTimely now _ _ (Move.approving r k d i p l) h =
    inr (rfc3339 now, refl, omega (arith, rfc3339-le now, l))
Move-IsTimely now _ _ (Move.denying r p) h = inl refl

pending-IsTimely : (r : DeviceRow) → is_pending r ≡ true → IsTimely r
unfolding teq
pending-IsTimely r h = inl (
    subst (λ s. teq s device_status_approved ≡ false)
      (sym (eq_of_teq r.status device_status_pending h)) refl)

Follows-IsTimely :
    (now : ℕ) (rows rows' : List DeviceRow)
    → Follows now rows rows'
    → All IsTimely rows
    → All IsTimely rows'
Follows-IsTimely now [] rows' f h = All-imp _ _ rows' pending-IsTimely f
Follows-IsTimely now (r ∷ rows) [] f h = absurd f
Follows-IsTimely now (r ∷ rows) (r' ∷ rows') (m, f) (hr, h) =
    (Move-IsTimely now r r' m hr, Follows-IsTimely now rows rows' f h)

-- Whatever is called, no login is approved at or after the time it is due.
pub run-IsTimely :
    (events : List (ℕ × Event)) (rows : List DeviceRow)
    → IsKeyed rows
    → All IsTimely rows
    → All IsTimely (run events rows)
unfolding run
run-IsTimely [] rows keyed h = h
run-IsTimely ((now, e) ∷ events) rows keyed h =
    run-IsTimely events (step now e rows) (step-IsKeyed now e rows keyed)
      (Follows-IsTimely now rows (step now e rows) (step-Follows now e rows keyed) h)
