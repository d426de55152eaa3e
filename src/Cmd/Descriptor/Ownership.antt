-- ===== src/Cmd/Descriptor/Ownership.antt =====
-- Who holds the duplicate that duplicateEventFile makes, while other goroutines start processes.
use outage.Base.{
  ℕ, suc, not, ◌&&◌, arith, Bool, true, false, Option, none, some, List, [], ◌∷◌, ◌≡◌, refl, ap,
  ◌∙◌,
}
use outage.Cmd.Descriptor.{
  Call, Descriptor, DescriptorError, Duplication, UnixDescriptor, WindowsDescriptor, read_lock,
  read_unlock, set_cloexec, close_owned, duplicates_as, duplicate_event_file, duplicate_unix,
  duplicate_windows, unix, windows, other,
}

-- Whether ForkLock is held for reading, the duplicate with whether a child inherits it, and how many
-- children have inherited it.
pub record Ownership : Type 0 where
  pub locked : Bool
  pub owned : Option Bool
  pub inherited : ℕ

abbrev pub call : Call → Ownership → Ownership
call read_lock s = record s { locked = true }
call read_unlock s = record s { locked = false }
call (duplicates_as inheritable) s = record s { owned = some inheritable }
call set_cloexec s = elim s.owned [ some b ↦ record s { owned = some false } | none ↦ s ]
call close_owned s = record s { owned = none }

abbrev pub calls : List Call → Ownership → Ownership
calls [] s = s
calls (c ∷ cs) s = calls cs (call c s)

-- The start of a process by another goroutine, which waits while ForkLock is held for reading.
abbrev heirs : Bool → Option Bool → ℕ → ℕ
heirs true owned n = n
heirs false (some true) n = suc n
heirs false (some false) n = n
heirs false none n = n

abbrev pub fork : Ownership → Ownership
fork s = record s { inherited = heirs s.locked s.owned s.inherited }

-- A call of the duplication, or a fork between its calls.
pub data Turn : Type 0 where
  own : Call → Turn
  forks : Turn

abbrev pub own_calls : List Turn → List Call
own_calls [] = []
own_calls (own c ∷ ts) = c ∷ own_calls ts
own_calls (forks ∷ ts) = own_calls ts

abbrev pub turns : List Turn → Ownership → Ownership
turns [] s = s
turns (own c ∷ ts) s = turns ts (call c s)
turns (forks ∷ ts) s = turns ts (fork s)

-- Nothing is inherited at a fork.
abbrev is_private : Bool → Option Bool → Bool
is_private true owned = true
is_private false (some inheritable) = not inheritable
is_private false none = true

heirs-is_private :
    (locked : Bool) (owned : Option Bool) (n : ℕ)
    → is_private locked owned ≡ true
    → heirs locked owned n ≡ n
heirs-is_private true owned n h = refl
heirs-is_private false (some true) n h = cc
heirs-is_private false (some false) n h = refl
heirs-is_private false none n h = refl

-- At no point between calls is anything inherited.
abbrev is_guarded : List Call → Ownership → Bool
is_guarded [] s = is_private s.locked s.owned
is_guarded (c ∷ cs) s = is_private s.locked s.owned && is_guarded cs (call c s)

is_guarded_now :
    (cs : List Call) (s : Ownership) → is_guarded cs s ≡ true → is_private s.locked s.owned ≡ true
is_guarded_now [] s h = h
is_guarded_now (c ∷ cs) s h = ground arith

turns-is_guarded :
    (ts : List Turn) (cs : List Call) (s : Ownership)
    → own_calls ts ≡ cs
    → is_guarded cs s ≡ true
    → turns ts s ≡ calls cs s
turns-is_guarded [] [] s e h = refl
turns-is_guarded [] (c ∷ cs) s e h = cc
turns-is_guarded (own c ∷ ts) [] s e h = cc
turns-is_guarded (own c ∷ ts) (c' ∷ cs) s e h =
    let same : c ≡ c' = cc in
    let rest : own_calls ts ≡ cs = cc in
    ap (λ k. turns ts (call k s)) same ∙ turns-is_guarded ts cs (call c' s) rest (ground arith)
turns-is_guarded (forks ∷ ts) cs s e h =
    let same = heirs-is_private s.locked s.owned s.inherited (is_guarded_now cs s h) in
    ap (λ n. turns ts (record s { inherited = n })) same ∙ turns-is_guarded ts cs s e h

abbrev pub idle : Ownership
idle = record { locked = false; owned = none; inherited = 0 }

-- After a duplication: a file that no child inherits, or nothing.
abbrev pub owned_by : Option DescriptorError → Option Bool
owned_by none = some false
owned_by (some e) = none

abbrev pub owning : Option DescriptorError → Ownership
owning error = record { locked = false; owned = owned_by error; inherited = 0 }

abbrev IsOwning : Duplication → Type 0
IsOwning d = (is_guarded d.calls idle ≡ true) × (calls d.calls idle ≡ owning d.error)

-- By what each call answers.
unix-IsOwning : (d : UnixDescriptor) → IsOwning (duplicate_unix d)
unfolding duplicate_unix
unix-IsOwning d = go d.dups d.sets_cloexec d.has_file
  where
    go :
        (dups sets_cloexec has_file : Bool)
        → IsOwning (
            duplicate_unix
              (record d { dups = dups; sets_cloexec = sets_cloexec; has_file = has_file }))
    go false sets has = (refl, refl)
    go true false has = (refl, refl)
    go true true false = (refl, refl)
    go true true true = (refl, refl)

windows-IsOwning : (d : WindowsDescriptor) → IsOwning (duplicate_windows d)
unfolding duplicate_windows
windows-IsOwning d = go d.duplicates d.has_file
  where
    go :
        (duplicates has_file : Bool)
        → IsOwning (duplicate_windows (record d { duplicates = duplicates; has_file = has_file }))
    go false has = (refl, refl)
    go true false = (refl, refl)
    go true true = (refl, refl)

duplicate_event_file-IsOwning : (d : Descriptor) → IsOwning (duplicate_event_file d)
duplicate_event_file-IsOwning (unix d) = unix-IsOwning d
duplicate_event_file-IsOwning (windows d) = windows-IsOwning d
duplicate_event_file-IsOwning other = (refl, refl)

-- Whatever the system answers, and wherever other goroutines start processes between the calls of a
-- duplication, no child inherits the duplicate, the lock is released, and the duplicate is left open,
-- and not inheritable, exactly when there is no error.
pub duplicate_event_file-owning :
    (d : Descriptor) (ts : List Turn)
    → own_calls ts ≡ (duplicate_event_file d).calls
    → turns ts idle ≡ owning (duplicate_event_file d).error
duplicate_event_file-owning d ts e =
    let (guarded, after) = duplicate_event_file-IsOwning d in
    turns-is_guarded ts (duplicate_event_file d).calls idle e guarded ∙ after
