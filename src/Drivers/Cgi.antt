-- ===== src/Drivers/Cgi.antt =====
-- crates/blockless-drivers/src/cgi_driver/mod.rs and process.rs: the handles of the CGI driver, the
-- processes behind them, and the listings that a guest reads piece by piece. Running processes
-- belong to the operating system, and the JSON library and the listing itself are parameters.
pub mod Reads
pub mod Extensions
use bls_runtime.Prelude.{
  ◌≡◌, ap, ℕ, ◌+◌, ◌-◌, ◌%◌, Bool, true, false, Option, none, some, List, [], ◌∷◌, ◌++◌, Bytes,
  codes, leb, ◌==◌, if◌then◌else◌, length, take, drop, u32_mod,
}
use bls_runtime.Prelude.Assoc.{Assoc, lookup, insert, remove, has_key, nat_eq}

pub data CgiErrorKind : Type 0 where
  invalid_handle invalid_parameter invalid_extension runtime_error : CgiErrorKind

pub data Result {ℓ} (A : Type ℓ) : Type ℓ where
  ok : A → Result A
  err : CgiErrorKind → Result A

abbrev value_or {ℓ} : {A : Type ℓ} → A → Result A → A
value_or d (ok a) = a
value_or d (err e) = d

pub ok-injective {ℓ} : {A : Type ℓ} (a b : A) → ok a ≡ ok b → a ≡ b
ok-injective a b h = ap (value_or a) h

infixl 5 ◌>>=◌
abbrev pub ◌>>=◌ : {A B : Type 0} → Result A → (A → Result B) → Result B
ok a >>= f = f a
err e >>= f = err e

abbrev pub ok_or : {A : Type 0} → CgiErrorKind → Option A → Result A
ok_or e none = err e
ok_or e (some a) = ok a

-- A running process: which of its streams are piped, and what reading and writing do. An error of
-- the system is `none`.
pub record System : Type 1 where
  pub Child : Type 0
  pub spawn : Bytes → List Bytes → List (Bytes × Bytes) → Option Child
  pub has_stdout : Child → Bool
  pub has_stderr : Child → Bool
  pub has_stdin : Child → Bool
  pub read_stdout : ℕ → Child → Option Bytes × Child
  pub read_stderr : ℕ → Child → Option Bytes × Child
  pub write_stdin : Bytes → Child → Option ℕ × Child

-- The request of a process: JSON that names a command, arguments and variables. An item of another
-- type reads as none; `get_command_with_alias` gives the file of an extension.
pub record Request : Type 1 where
  pub Value : Type 0
  pub parse : Bytes → Option Value
  pub index : Value → Bytes → Value
  pub as_str : Value → Option Bytes
  pub array : Value → Option (List Value)
  pub command_file : Bytes → Bytes → Option Bytes

abbrev filter_some {ℓ} : {A : Type ℓ} → List (Option A) → List A
filter_some [] = []
filter_some (none ∷ os) = filter_some os
filter_some (some a ∷ os) = a ∷ filter_some os

abbrev zip {ℓ} : {A : Type ℓ} → Option A → Option A → Option (A × A)
zip (some a) (some b) = some (a, b)
zip _ _ = none

abbrev map_items {ℓ κ} : {A : Type ℓ} {B : Type κ} → (A → B) → Option (List A) → List B
map_items f none = []
map_items f (some []) = []
map_items f (some (x ∷ xs)) = f x ∷ map_items f (some xs)

module _ (sys : System) where
  pub record CgiProcess : Type 0 where
    pub root_path : Bytes
    pub child : Option sys.Child
    pub command : Bytes
    pub args : List Bytes
    pub envs : List (Bytes × Bytes)

  pub data CgiCtx : Type 0 where
    process : CgiProcess → CgiCtx
    directory_list : Bytes → ℕ → CgiCtx

  pub record Contexts : Type 0 where
    pub ctx : Assoc ℕ CgiCtx
    pub max_handle : ℕ

  unfoldable pub new_process : Request → Bytes → Bytes → Result CgiProcess
  new_process req root_path cmd_with_params = do
    obj ← ok_or invalid_parameter (req.parse cmd_with_params)
    alias ← ok_or invalid_parameter (req.as_str (req.index obj (codes "command")))
    file_name ← ok_or invalid_extension (req.command_file root_path alias)
    ok (record {
      root_path = root_path;
      child = none;
      command = file_name;
      args = filter_some (map_items req.as_str (req.array (req.index obj (codes "args"))));
      envs = filter_some (
          map_items
            (λ arg.
              zip (req.as_str (req.index arg (codes "env_name")))
                (req.as_str (req.index arg (codes "env_val"))))
            (req.array (req.index obj (codes "envs"))));
    })

  unfoldable pub exec : CgiProcess → Result CgiProcess
  exec p = elim (sys.spawn (p.root_path ++ (b'/' ∷ p.command)) p.args p.envs) [
    | none ↦ err runtime_error
    | some o ↦ ok (record p { child = some o })
  ]

  abbrev io_result : {A : Type 0} → Option A → Result A
  io_result none = err runtime_error
  io_result (some a) = ok a

  -- The reads and the write: a stream that is not piped gives nothing.
  unfoldable pub child_read :
      (sys.Child → Bool)
      → (ℕ → sys.Child → Option Bytes × sys.Child)
      → ℕ
      → CgiProcess
      → Result Bytes × CgiProcess
  child_read has read n p = elim p.child [
    | none ↦ (err invalid_handle, p)
    | some c ↦
        if has c
        then (let (r, c') = read n c in (io_result r, record p { child = some c' }))
        else (ok [], p)
  ]

  unfoldable pub process_stdin_write : Bytes → CgiProcess → Result ℕ × CgiProcess
  process_stdin_write buf p = elim p.child [
    | none ↦ (err invalid_handle, p)
    | some c ↦
        if sys.has_stdin c
        then (let (r, c') = sys.write_stdin buf c in (io_result r, record p { child = some c' }))
        else (ok 0, p)
  ]

  -- The counter is a `u32`.
  unfoldable pub increase_handle : Contexts → ℕ × Contexts
  increase_handle s = let h = (s.max_handle + 1) % u32_mod in (h, record s { max_handle = h })

  unfoldable pub put : ℕ → CgiCtx → Contexts → Contexts
  put handle c s = record s { ctx = insert handle c s.ctx }

  -- `listing` is the text that the listing of the directory gives.
  unfoldable pub cgi_directory_list_exec : Result Bytes → Contexts → Result ℕ × Contexts
  unfolding increase_handle put
  cgi_directory_list_exec (err e) s = (err e, s)
  cgi_directory_list_exec (ok rs) s =
      let (handle, s') = increase_handle s in (ok handle, put handle (directory_list rs 0) s')

  -- The next piece of a listing, at most as long as the buffer: the entry is taken out, and put
  -- back where it is a listing.
  unfoldable pub cgi_directory_list_read : ℕ → ℕ → Contexts → Result Bytes × Contexts
  unfolding put
  cgi_directory_list_read handle buf_len s =
      let taken = record s { ctx = remove handle s.ctx } in
      elim (lookup handle s.ctx) [
        | none ↦ (err invalid_handle, taken)
        | some (process p) ↦ (err invalid_handle, taken)
        | some (directory_list vals pos) ↦
            let remaining = length vals - pos in
            let copyn = if leb remaining buf_len then remaining else buf_len in
            if remaining == 0 then (ok [], put handle (directory_list vals pos) taken) else (
              ok (take copyn (drop pos vals)),
              put handle (directory_list vals (pos + copyn)) taken,
            )
      ]

  -- The handle is counted before the request is read.
  unfoldable pub command_and_exec : Request → Bytes → Bytes → Contexts → Result ℕ × Contexts
  unfolding increase_handle new_process exec put
  command_and_exec req root_path cmd s =
      let (handle, s') = increase_handle s in
      elim (new_process req root_path cmd >>= exec) [
        | err e ↦ (err e, s')
        | ok cgi ↦ (ok handle, put handle (process cgi) s')
      ]

  unfoldable pub close : ℕ → Contexts → Result {0} Unit × Contexts
  close handle s = (
    if has_key handle s.ctx then ok tt else err invalid_handle,
    record s { ctx = remove handle s.ctx },
  )

  -- A call of the process behind a handle, which keeps what the call makes of the process.
  unfoldable pub with_process :
      {A : Type 0} → ℕ → (CgiProcess → Result A × CgiProcess) → Contexts → Result A × Contexts
  unfolding put
  with_process handle f s = elim (lookup handle s.ctx) [
    | none ↦ (err invalid_handle, s)
    | some (directory_list vals pos) ↦ (err invalid_handle, s)
    | some (process p) ↦ let (r, p') = f p in (r, put handle (process p') s)
  ]

  unfoldable pub child_stdin_write : ℕ → Bytes → Contexts → Result ℕ × Contexts
  unfolding with_process process_stdin_write
  child_stdin_write handle buf s = with_process handle (process_stdin_write buf) s

  unfoldable pub child_stdout_read : ℕ → ℕ → Contexts → Result Bytes × Contexts
  unfolding with_process child_read
  child_stdout_read handle n s = with_process handle (child_read sys.has_stdout sys.read_stdout n) s

  unfoldable pub child_stderr_read : ℕ → ℕ → Contexts → Result Bytes × Contexts
  unfolding with_process child_read
  child_stderr_read handle n s = with_process handle (child_read sys.has_stderr sys.read_stderr n) s
