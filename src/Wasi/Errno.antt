-- ===== src/Wasi/Errno.antt =====
-- crates/wasi-common/src/snapshots/preview_1/error.rs: the errors of the host calls.
use bls_runtime.Prelude.{String, ◌≡◌, ◌⊎◌, inl, inr, refl, ap}

-- The `Errno` variants that the conversions name.
pub data Errno : Type 0 where
  again pipe perm noent nomem too_big io badf busy acces fault notdir isdir inval exist : Errno
  fbig nospc spipe mfile mlink nametoolong nfile notempty loop overflow ilseq notsup : Errno
  addrinuse canceled addrnotavail afnosupport already connaborted connrefused connreset : Errno
  destaddrreq dquot hostunreach inprogress intr isconn msgsize netdown netreset : Errno
  netunreach nobufs noprotoopt notconn notsock protonosupport prototype stale timedout : Errno
  range : Errno

-- `Error` is an errno for the guest, or a trap that ends it.
pub data Error : Type 0 where
  errno : Errno → Error
  trap : String → Error

pub data Result {ℓ} (A : Type ℓ) : Type ℓ where
  ok : A → Result A
  err : Error → Result A

pub Result-cases {ℓ} :
    {A : Type ℓ} (r : Result A) → ((a : A) × (r ≡ ok a)) ⊎ ((e : Error) × (r ≡ err e))
Result-cases (ok a) = inl (a, refl)
Result-cases (err e) = inr (e, refl)

abbrev value_or {ℓ} : {A : Type ℓ} → A → Result A → A
value_or d (ok a) = a
value_or d (err e) = d

pub ok-injective {ℓ} : {A : Type ℓ} (a b : A) → ok a ≡ ok b → a ≡ b
ok-injective a b h = ap (value_or a) h
