-- ===== src/Tests/Files.antt =====
-- Samples for fs/: the loaders, and the wrappers round a source that keeps a list of names.
use ftpserver.Base.{
  ℕ, ◌≡◌, ◌≢◌, refl, true, false, none, some, List, [], ◌∷◌, ◌++◌, Text, bytes, text_eq,
  text_eq_iff, length, not_found, eof, ok, done, and_then, arith,
}
use ftpserver.Strings.{pos}
use ftpserver.Confpar.{Access}
use ftpserver.EnvVars.{replace_env_vars}
use ftpserver.EnvVars.Expansion.{copied, dollar, variable, print, expand, replace_env_vars-print}
use ftpserver.EnvVars
use ftpserver.Fs.{
  MailFs, opportunistic_start_tls, base_path_fs, os_fs, read_only_fs, mail_fs, param,
}
use ftpserver.Fs.Backends.{load_mail}
use ftpserver.Fs.Loader.{load_fs}
use ftpserver.Fs.Protection.{blocks_writes, blocks_writes-load_fs, IsPort, load_mail-IsPort}
use ftpserver.Afero.{AferoFs, FileOps, create, open_named, remove, stat, rename, call}
use ftpserver.StripPrefix.{new_strip_prefix_fs}
use ftpserver.StripPrefix.Transparent.{prefixed, wrap_reply, Fails, call-prefixed, call_short}
use ftpserver.Fslog.{Entry}
use ftpserver.Fslog.Transparent.{hide_lstat, calls, logged, wrapped, calls-load_fs}
use ftpserver.Fslog.Files.{close}
use ftpserver.Fslog.Files.Counting.{
  reads, writes, transfer_all, tally, summary, opened_file, close-transfer_all,
}
use ftpserver.Fslog
use ftpserver.Tests.{make_access, archive, cloud}

abbrev paths : Text → Text
paths name = bytes "/home"

replace_env_vars-print_example :
    replace_env_vars paths
      (print (variable b'H' (bytes "OME") ∷ copied b'/' ∷ dollar ∷ dollar ∷ []))
    ≡ expand paths (variable b'H' (bytes "OME") ∷ copied b'/' ∷ dollar ∷ dollar ∷ [])
unfolding EnvVars.is_word
replace_env_vars-print_example =
    replace_env_vars-print paths (variable b'H' (bytes "OME") ∷ copied b'/' ∷ dollar ∷ dollar ∷ [])
      (refl, (refl, (refl, (refl, tt))), refl, (λ e. omega arith, (tt, (tt, tt))))

archive_loaded : load_fs cloud archive ≡ ok (read_only_fs (base_path_fs os_fs (bytes "/srv")))
unfolding load_fs
archive_loaded = refl

blocks_writes-load_fs_example :
    blocks_writes (read_only_fs (base_path_fs os_fs (bytes "/srv"))) ≡ true
blocks_writes-load_fs_example =
    blocks_writes-load_fs cloud archive (read_only_fs (base_path_fs os_fs (bytes "/srv")))
      archive_loaded

differ : (s t : Text) → text_eq s t ≡ false → s ≢ t
differ s t apart same = ground (arith, text_eq_iff s t)

abbrev tape : Access
tape = make_access (bytes "bob") (bytes "x") (bytes "tape")

abbrev post : Access
post = record tape {
  params =
      (bytes "Port", bytes "70000")
      ∷ (bytes "SSL", bytes "true")
      ∷ (bytes "StartTLSPolicy", bytes "OpportunisticStartTLS")
      ∷ (bytes "To", bytes "a@b")
      ∷ [];
}

abbrev pub post_fs : MailFs
post_fs = record {
  host = [];
  port = pos 25;
  ssl = true;
  start_tls_policy = opportunistic_start_tls;
  username = [];
  password = [];
  local_name = [];
  from = [];
  to = bytes "a@b";
  subject = [];
  message = [];
}

post_loaded : load_mail cloud post ≡ ok (mail_fs post_fs)
unfolding load_mail
post_loaded = refl

load_mail-IsPort_example :
    IsPort (pos 25)
    × (bytes "a@b" ≡ param (bytes "To") post.params)
    × ([] ≡ param (bytes "From") post.params)
load_mail-IsPort_example = load_mail-IsPort cloud post post_fs post_loaded

abbrev names : AferoFs
names = record {
  State = List Text;
  File = Text;
  FileInfo = ℕ;
  name = bytes "names";
  chtimes = λ s n a m. (s, none);
  chmod = λ s n m. (s, none);
  chown = λ s n u g. (s, none);
  stat = λ s n. (s, some (length s), none);
  rename = λ s o n. (n ∷ s, none);
  remove_all = λ s n. (s, none);
  remove = λ s n. (s, some not_found);
  open_file = λ s n f m. (s, some n, none);
  open_named = λ s n. (s, none, some not_found);
  mkdir = λ s n m. (s, none);
  mkdir_all = λ s n m. (s, none);
  create = λ s n. (n ∷ s, some n, none);
  lstat_if_possible = none;
  file_name = λ s f. done f;
}

call-prefixed_example :
    call (new_strip_prefix_fs names 4) (rename (bytes "/ftpa") (bytes "/ftpb")) []
    ≡ (bytes "b" ∷ [], wrap_reply 4 (call names (rename (bytes "a") (bytes "b")) []).1)
unfolding prefixed
call-prefixed_example = call-prefixed names (bytes "/ftp") (rename (bytes "a") (bytes "b")) []

call_short_example :
    let (s', reply) = call (new_strip_prefix_fs names 4) (stat (bytes "/a")) [] in
    (s' ≡ []) × Fails reply
call_short_example = call_short names 4 (stat (bytes "/a")) [] (omega arith)

calls-load_fs_example :
    let rs = create (bytes "a") ∷ open_named (bytes "b") ∷ remove (bytes "a") ∷ [] in
    let (s', replies) = calls (hide_lstat names) rs [] in
    calls (Fslog.load_fs names []) rs ([], [])
    ≡ ((s', [] ++ logged names [] rs replies), wrapped names [] rs replies)
calls-load_fs_example =
    calls-load_fs names [] (create (bytes "a") ∷ open_named (bytes "b") ∷ remove (bytes "a") ∷ [])
      [] []

-- A source whose reads give at most two bytes of what is left.
abbrev tail_ops : FileOps Text Text ℕ
tail_ops = record {
  close = λ s f. (s, none);
  read = λ s f len. (s, bytes "ab", none);
  read_at = λ s f len off. (s, [], some eof);
  seek = λ s f off w. (s, pos 0, none);
  write = λ s f b. (s ++ b, length b, none);
  write_at = λ s f b off. (s, 0, some not_found);
  name = λ s f. f;
  readdir = λ s f n. (s, [], none);
  readdirnames = λ s f n. (s, [], none);
  stat = λ s f. (s, none, none);
  sync = λ s f. (s, none);
  truncate = λ s f n. (s, none);
  write_string = λ s f b. (s ++ b, length b, none);
}

close-transfer_all_example :
    let ts = reads 2 ∷ writes (bytes "xyz") ∷ reads 2 ∷ [] in
    let (s', r, w) = tally tail_ops ts [] (bytes "f") in
    let (s'', e) = tail_ops.close s' (bytes "f") in
    and_then
      (transfer_all tail_ops ts (opened_file tail_ops (bytes "f") [] 0 0) ([], []))
      (λ (f', st'). close tail_ops f' st')
    ≡ done ((s'', [] ++ (summary tail_ops [] r w e ∷ [])), e)
close-transfer_all_example =
    close-transfer_all tail_ops (reads 2 ∷ writes (bytes "xyz") ∷ reads 2 ∷ []) (bytes "f") [] [] []
