-- ===== src/Tests/Programs.antt =====
-- The CGI driver: a listing that is read in pieces, a process, and a directory of extensions.
use bls_runtime.Prelude.{
  ℕ, ◌≡◌, refl, true, false, some, none, List, [], ◌∷◌, Bytes, codes, All, length, arith, ◌==◌,
}
use bls_runtime.Prelude.Assoc.{lookup, insert, nat_eq}
use bls_runtime.Prelude.Text.{bytes_eq, bytes_beq}
use bls_runtime.Drivers.Cgi.{
  Result, ok, err, invalid_handle, System, CgiProcess, process, Contexts, increase_handle,
  cgi_directory_list_exec, cgi_directory_list_read, close,
}
use bls_runtime.Drivers.Cgi.Reads.{read_all, listing-read_all, list_read-drops}
use bls_runtime.Drivers.Cgi.Extensions.{
  ExtensionMeta, normal, Rows, Entry, is_candidate, list_entry, list_extensions, by_file_name,
  list_cgi_directory, insert_extension_meta, save_extensions, valid_ones,
  cgi_directory_list_extensions,
}
use bls_runtime.Drivers.Cgi.Extensions.Present.{IsPresent, listed-IsPresent}

-- A process is a number, and gives nothing.
abbrev system : System
system = record {
  Child = ℕ;
  spawn = λ file args envs. some 7;
  has_stdout = λ c. true;
  has_stderr = λ c. true;
  has_stdin = λ c. true;
  read_stdout = λ n c. (some [], c);
  read_stderr = λ n c. (some [], c);
  write_stdin = λ buf c. (some (length buf), c);
}

abbrev no_contexts : Contexts system
no_contexts = record { ctx = []; max_handle = 0 }

abbrev listing : Bytes
listing = codes "[{\"alias\":\"cat\"}]"

abbrev listed : Contexts system
listed = (cgi_directory_list_exec system (ok listing) no_contexts).1

exec_listed : cgi_directory_list_exec system (ok listing) no_contexts ≡ (ok 1, listed)
unfolding cgi_directory_list_exec increase_handle
exec_listed = refl

-- Buffers of eight bytes, and one of no byte.
listing-read_all_example :
    (s : Contexts system) × (read_all system 1 (8 ∷ 0 ∷ 8 ∷ 8 ∷ []) listed ≡ (ok listing, s))
listing-read_all_example =
    listing-read_all system listing 1 (8 ∷ 0 ∷ 8 ∷ 8 ∷ []) no_contexts listed exec_listed
      (omega arith)

abbrev running : CgiProcess system
running = record {
  root_path = codes "/ext";
  child = some 7;
  command = codes "cat";
  args = [];
  envs = [];
}

abbrev with_running : Contexts system
with_running = record { ctx = (1, process running) ∷ []; max_handle = 1 }

running_there : lookup 1 with_running.ctx ≡ some (process running)
unfolding lookup
running_there = refl

list_read-drops_example :
    (s : Contexts system) × (cgi_directory_list_read system 1 8 with_running
      ≡ (err invalid_handle, s))
    × (lookup 1 s.ctx ≡ none)
    × ((close system 1 s).0 ≡ err invalid_handle)
    × ((other : ℕ) → (1 == other) ≡ false → lookup other s.ctx ≡ lookup other with_running.ctx)
list_read-drops_example = list_read-drops system 1 8 running with_running running_there

abbrev cat : ExtensionMeta
cat = record {
  id = 0;
  md5 = codes "aa";
  description = codes "cats";
  alias = codes "cat";
  file_name = [];
  status = normal;
}

-- A table with an extension whose file is gone, and a directory with another.
abbrev gone : Rows
gone = record cat { id = 1; alias = codes "dog"; file_name = codes "dog.sh" } ∷ []

abbrev directory : List Entry
directory =
    record {
      file_name = codes "cat.sh";
      is_file = true;
      is_executable = true;
      md5 = some (codes "bb");
      ext_verify = some (some cat);
    }
    ∷ []

abbrev result_of : Result (List ExtensionMeta) → List ExtensionMeta
result_of (ok ms) = ms
result_of (err e) = []

abbrev found : List ExtensionMeta
found = result_of (cgi_directory_list_extensions directory gone).0

found_listed :
    cgi_directory_list_extensions directory gone
    ≡ (ok found, (cgi_directory_list_extensions directory gone).1)
unfolding cgi_directory_list_extensions list_cgi_directory list_entry by_file_name list_extensions
    save_extensions insert_extension_meta is_candidate bytes_beq lookup insert
found_listed = refl

one_found : length found ≡ 1
unfolding cgi_directory_list_extensions list_cgi_directory list_entry by_file_name list_extensions
    save_extensions insert_extension_meta valid_ones is_candidate bytes_beq lookup insert
one_found = refl

listed-IsPresent_example : All (IsPresent directory) found
listed-IsPresent_example =
    listed-IsPresent directory gone (cgi_directory_list_extensions directory gone).1 found
      found_listed
