-- ===== src/Redir/Pf/Device.antt =====
-- tproxy_tokio/src/tcp/bsd/pf.rs: the opening of /dev/pf, its closing, and the static `PF`.
use local_proxy_rs.Base.{
  ℕ, zero, suc, Bool, true, false, List, [], ◌∷◌, Option, none, some, ◌==◌, if◌then◌else◌, io,
  Result, ok, err, ◌≡◌, refl, arith,
}

-- The open files of the process: their descriptors, and whether they are closed on exec.
pub record OpenFile : Type 0 where
  pub fd : ℕ
  pub cloexec : Bool

abbrev pub Files : Type 0
Files = List OpenFile

-- `libc::open` of the device, `none` where it is negative; and whether `fcntl` with `F_SETFD` is 0.
pub record Libc : Type 0 where
  pub open_device : Files → Option ℕ
  pub sets_flags : Files → ℕ → Bool

pub record PacketFilter : Type 0 where
  pub fd : ℕ

-- `libc::close`.
abbrev pub close : ℕ → Files → Files
close fd [] = []
close fd (f ∷ fs) = let rest = close fd fs in if f.fd == fd then rest else f ∷ rest

abbrev pub set_cloexec : ℕ → Files → Files
set_cloexec fd [] = []
set_cloexec fd (f ∷ fs) =
    (if f.fd == fd then record f { cloexec = true } else f) ∷ set_cloexec fd fs

-- `if ret != 0 { … }`, by whether the flags could be set.
abbrev pub after_fcntl : ℕ → Files → Bool → Files × Result PacketFilter
after_fcntl fd fs true = (set_cloexec fd fs, ok (record { fd = fd }))
after_fcntl fd fs false = (close fd fs, err io)

abbrev pub after_open : Libc → Files → Option ℕ → Files × Result PacketFilter
after_open k fs none = (fs, err io)
after_open k fs (some fd) =
    let opened = record { fd = fd; cloexec = false } ∷ fs in
    after_fcntl fd opened (k.sets_flags opened fd)

-- `PacketFilter::open`.
unfoldable pub open_filter : Libc → Files → Files × Result PacketFilter
open_filter k fs = after_open k fs (k.open_device fs)

-- `Drop for PacketFilter`.
unfoldable pub drop_filter : PacketFilter → Files → Files
drop_filter pf fs = close pf.fd fs

-- The static `PF`, a `Lazy`: opened at its first use and kept; where that panics, every later use
-- panics as well.
pub data LazyFilter : Type 0 where
  untouched : LazyFilter
  ready : PacketFilter → LazyFilter
  poisoned : LazyFilter

abbrev pub kept : Files × Result PacketFilter → Files × LazyFilter
kept (fs, ok pf) = (fs, ready pf)
kept (fs, err e) = (fs, poisoned)

unfoldable pub force : Libc → Files → LazyFilter → Files × LazyFilter
force k fs untouched = kept (open_filter k fs)
force k fs (ready pf) = (fs, ready pf)
force k fs poisoned = (fs, poisoned)

-- No open file has the descriptor.
abbrev pub IsNew : ℕ → Files → Type 0
IsNew fd [] = Unit
IsNew fd (f ∷ fs) = ((f.fd == fd) ≡ false) × IsNew fd fs

-- A descriptor that `open` gives is none of those in use.
abbrev pub GivesNew : Libc → Type 0
GivesNew k = (fs : Files) (fd : ℕ) → k.open_device fs ≡ some fd → IsNew fd fs

-- The files after the opening, from those before.
abbrev pub IsClean : Files → Files × Result PacketFilter → Type 0
IsClean before (after, ok pf) =
    (after ≡ record { fd = pf.fd; cloexec = true } ∷ before) × (drop_filter pf after ≡ before)
IsClean before (after, err e) = after ≡ before

close-IsNew : (fd : ℕ) (fs : Files) → IsNew fd fs → close fd fs ≡ fs
close-IsNew fd [] h = refl
close-IsNew fd (f ∷ fs) (differs, h) = rw (differs, close-IsNew fd fs h) refl

set_cloexec-IsNew : (fd : ℕ) (fs : Files) → IsNew fd fs → set_cloexec fd fs ≡ fs
set_cloexec-IsNew fd [] h = refl
set_cloexec-IsNew fd (f ∷ fs) (differs, h) = rw (differs, set_cloexec-IsNew fd fs h) refl

==_refl : (n : ℕ) → (n == n) ≡ true
==_refl n = ground arith

after_fcntl-IsClean :
    (fd : ℕ) (fs : Files) (b : Bool)
    → IsNew fd fs
    → IsClean fs (after_fcntl fd (record { fd = fd; cloexec = false } ∷ fs) b)
unfolding drop_filter
after_fcntl-IsClean fd fs true h = (
  rw (==_refl fd, set_cloexec-IsNew fd fs h) refl,
  rw (==_refl fd, set_cloexec-IsNew fd fs h) (rw (==_refl fd) (close-IsNew fd fs h)),
)
after_fcntl-IsClean fd fs false h = rw (==_refl fd) (close-IsNew fd fs h)

-- The files that are open once `PF` has been used any number of times: one more than before, or
-- just those.
abbrev pub IsForced : Files → Files × LazyFilter → Type 0
IsForced before (after, ready pf) = after ≡ record { fd = pf.fd; cloexec = true } ∷ before
IsForced before (after, poisoned) = after ≡ before
IsForced before (after, untouched) = ⊥

-- With a system that opens under a descriptor not in use: the filter is open under a descriptor that
-- is closed on exec, beside the files that were open, and dropping it leaves just those; or the
-- opening failed, at either call, and just those are open.
pub open_filter-IsClean : (k : Libc) (fs : Files) → GivesNew k → IsClean fs (open_filter k fs)
unfolding open_filter
open_filter-IsClean k fs new = go (k.open_device fs) refl
  where
    go : (o : Option ℕ) → k.open_device fs ≡ o → IsClean fs (after_open k fs o)
    go none e = refl
    go (some fd) e =
        after_fcntl-IsClean fd fs (k.sets_flags (record { fd = fd; cloexec = false } ∷ fs) fd)
          (new fs fd e)

-- A use of `PF` after the first one.
abbrev again : Libc → Files × LazyFilter → Files × LazyFilter
again k (fs, cell) = force k fs cell

abbrev pub force_times : ℕ → Libc → Files × LazyFilter → Files × LazyFilter
force_times zero k x = x
force_times (suc n) k x = force_times n k (again k x)

again-IsForced :
    (k : Libc) (before : Files) (x : Files × LazyFilter)
    → IsForced before x
    → IsForced before (again k x)
unfolding force
again-IsForced k before (fs, ready pf) h = h
again-IsForced k before (fs, poisoned) h = h
again-IsForced k before (fs, untouched) h = absurd h

-- The device is opened at most once, however often `PF` is used.
force_times-IsForced :
    (n : ℕ) (k : Libc) (fs : Files)
    → GivesNew k
    → IsForced fs (force_times n k (force k fs untouched))
unfolding force
force_times-IsForced n k fs new =
    more n (kept (open_filter k fs)) (first (open_filter k fs) (open_filter-IsClean k fs new))
  where
    first : (r : Files × Result PacketFilter) → IsClean fs r → IsForced fs (kept r)
    first (after, ok pf) h = h.0
    first (after, err e) h = h

    more : (m : ℕ) (x : Files × LazyFilter) → IsForced fs x → IsForced fs (force_times m k x)
    more zero x h = h
    more (suc m) x h = more m (again k x) (again-IsForced k fs x h)
