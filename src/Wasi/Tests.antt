-- ===== src/Wasi/Tests.antt =====
-- A file system with the directories "/" and "/d", and the witnesses for converge/wasishim/fs.go.
use duckdb_wasm2go_poc.Base.{
  ℕ, ◌≡◌, true, false, [], ◌∷◌, ◌++◌, none, some, inr, if◌then◌else◌, length, arith, refl,
}
use duckdb_wasm2go_poc.Base.Text.{has_prefix, codes, text_eq}
use duckdb_wasm2go_poc.HostFs.Os.{errno, enoent, err_eof}
use duckdb_wasm2go_poc.Wasi.Os.{WasiOs, Stat, DirEntry, PathOs, InfoOs, PathText}
use duckdb_wasm2go_poc.Wasi.State.{
  alloc_fd, put_le, read_str, Fs, Shim, Errnos, entry_of, fs_ensure, preopen_entry, le_bytes,
  wasi_success,
}
use duckdb_wasm2go_poc.Wasi.Readdir.{virtual, fd_readdir}
use duckdb_wasm2go_poc.HostFs.Memory.{overwrite, paste}
use duckdb_wasm2go_poc.Wasi.Resolve.{within, at_path, resolve_path}
use duckdb_wasm2go_poc.Base.{drop, inl}
use duckdb_wasm2go_poc.Wasi.Calls.{path_call, create_directory, open_at_path, unused, after_path}
use duckdb_wasm2go_poc.Wasi.Confinement.{Agrees}
use duckdb_wasm2go_poc.Wasi.Confinement.PathCalls.{path_call-Agrees}
use duckdb_wasm2go_poc.Wasi.Descriptors.{TableOk}
use duckdb_wasm2go_poc.Wasi.Descriptors.Steps.{Reach-TableOk}
use duckdb_wasm2go_poc.Wasi.Open.{wasi_open_mode, path_open, open_host, opened_entry}
use duckdb_wasm2go_poc.Wasi.Listing.{length-le_bytes}
use duckdb_wasm2go_poc.Wasi.Listing.Pages.{listed_entries, page, listed_memory, fd_readdir-records}

abbrev demo_os : WasiOs
demo_os = record {
  World = ℕ;
  Time = ℕ;
  is_missing = λ e. false;
  is_present = λ e. false;
  is_denied = λ e. false;
  unix_nano = λ t. t;
  from_nanos = λ n. n;
  now = λ w. w;
  Section = ℕ;
  new_section = λ f off. f;
  read_section = λ n. λ (r, w). (([], some err_eof), r, w);
  read_file = λ f n w. (([], some err_eof), w);
  write_file = λ f bytes w. ((length bytes, none), w);
  write_file_at = λ f bytes off w. ((length bytes, none), w);
  write_std = λ fd bytes w. ((length bytes, none), w);
  seek = λ f off whence w. (inr off, w);
  close_file = λ f w. (none, w);
  sync_file = λ f w. (none, w);
}

abbrev directory_stat : Stat demo_os
directory_stat = record {
  mode = record {
    dir = true;
    symlink = false;
    device = false;
    char_device = false;
    socket = false;
    regular = false;
  };
  size = 0;
  mod_time = 0;
  sys = some (1, 5, 2);
}

abbrev file_d : DirEntry
file_d = record { name = codes "d"; is_dir = true; is_symlink = false; handle = 0 }

abbrev demo_paths : PathOs demo_os
demo_paths = record {
  stat = λ path w. inr directory_stat;
  lstat = λ path w. inr directory_stat;
  open_dir = λ path w. (inr 9, w);
  open_file = λ path mode w. (inr 9, w);
  mkdir = λ path w. (none, w);
  remove = λ path w. (none, w);
  rename = λ old new w. (none, w);
  chtimes = λ path at mt w. (none, w);
  read_dir = λ path w. inr (file_d ∷ []);
}

abbrev demo_info : InfoOs demo_os
demo_info = record {
  file_info = λ f w. inr directory_stat;
  entry_info = λ de w. inr directory_stat;
}

abbrev demo_text : PathText
demo_text = record {
  path_clean = λ path. if has_prefix path (codes "//") then drop 1 path else path;
  file_clean = λ path. path;
  join = λ base rel. if text_eq base (codes "/") then base ++ rel else base ++ (codes "/" ++ rel);
  dir = λ path. codes "/";
  abs = λ path. some path;
}

abbrev demo_errnos : Errnos
demo_errnos = record { eperm = 1; enotdir = 20; eisdir = 21; enotempty = 39 }

abbrev first_use : Shim ℕ
first_use = record {
  fs = record { fds = none; next_fd = 0; preopen_name = codes "/"; preopen_root = codes "/r" };
  mem = le_bytes 200 0;
  world = 0;
}

fd_readdir-records_example :
    (fs' : Fs) × (fd_readdir demo_os demo_errnos demo_text demo_paths demo_info 3 16 60 0 8
        first_use
      ≡ some (
        wasi_success,
        record first_use {
          fs = fs';
          mem =
              listed_memory 16 8
                (page demo_os demo_errnos demo_text demo_paths demo_info 60 0
                  (codes "/r")
                  (file_d ∷ [])
                  0)
                (le_bytes 200 0);
        },
      ))
    × (entry_of 3 fs'
        ≡ some (record (preopen_entry (codes "/r")) { dir_entries = some (file_d ∷ []) }))
unfolding fs_ensure entry_of listed_entries virtual
fd_readdir-records_example =
    fd_readdir-records demo_os demo_errnos demo_text demo_paths demo_info 3 16 60 0 8
      (preopen_entry (codes "/r")) (file_d ∷ []) first_use (omega (arith, length-le_bytes 200 0))
      (omega (arith, length-le_bytes 200 0)) (omega arith) (omega arith) (omega arith)
      (omega (arith, length-le_bytes 200 0)) (omega arith, (omega arith, (omega arith, tt))) refl
      refl refl

-- a file system with nothing outside "/r"
abbrev only_root : PathOs demo_os
only_root = record demo_paths {
  stat = λ path w. if within (codes "/r") path then inr directory_stat else inl (errno enoent);
  mkdir = λ path w. if within (codes "/r") path then (none, w) else (some (errno enoent), w);
}

only_root-Agrees : Agrees demo_os (codes "/r") demo_paths only_root
only_root-Agrees = record {
  stats = λ path w h. rw h refl;
  lstats = λ path w h. refl;
  open_dirs = λ path w h. refl;
  open_files = λ path mode w h. refl;
  mkdirs = λ path w h. rw h refl;
  removes = λ path w h. refl;
  renames = λ old new w ho hn. refl;
  times = λ path at mt w h. refl;
}

-- the name "/d" at address 16
abbrev named : Shim ℕ
named = record first_use { mem = codes "0123456789abcdef/d01234567" }

path_call-Agrees_example :
    path_call demo_os demo_errnos demo_text demo_paths demo_info (create_directory 3 16 2) named
    ≡ path_call demo_os demo_errnos demo_text only_root demo_info (create_directory 3 16 2) named
unfolding fs_ensure
path_call-Agrees_example =
    path_call-Agrees demo_os demo_errnos demo_text demo_info demo_paths only_root named
      only_root-Agrees (create_directory 3 16 2)

-- "/d" is opened as descriptor 4
abbrev opened_d : Fs
opened_d = (alloc_fd (opened_entry 9 (codes "/r/d") true false) (fs_ensure named.fs)).1

abbrev opened_shim : Shim ℕ
opened_shim = record named { fs = opened_d; mem = codes "01234567\u{4}\0\0\0cdef/d01234567" }

open_d :
    path_call demo_os demo_errnos demo_text demo_paths demo_info (open_at_path 3 16 2 0 0 0 8) named
    ≡ some (0, opened_shim)
unfolding path_open at_path read_str resolve_path fs_ensure entry_of open_host alloc_fd put_le
    overwrite paste wasi_open_mode
open_d = refl

Reach-TableOk_example : TableOk demo_text opened_shim.fs
Reach-TableOk_example =
    Reach-TableOk demo_os demo_errnos demo_text demo_paths demo_info {s = opened_shim}
      (after_path (open_at_path 3 16 2 0 0 0 8) (unused named refl) open_d)
