-- ===== src/Main/Finish.antt =====
-- The end of a run of src/main.cpp: the files that are written and the exit code.
use hsa_snoop.Prelude.{
  to_dec, Text, codes, ℕ, ◌+◌, Bool, none, some, List, [], ◌∷◌, ◌++◌, ◌==◌, if◌then◌else◌,
}
use hsa_snoop.TraceWriter.Writer.{Format, Writer, write_file}
use hsa_snoop.Main.Options.{Options}
use hsa_snoop.Main.Session.{Session}

-- The paths that open for writing, and `std::hash<std::string>`.
pub record Files : Type 0 where
  pub opens : Text → Bool
  pub hash : Text → ℕ

-- The files written, with their paths, and how many could not be written.
pub record Written : Type 0 where
  pub files : List (Text × List ℕ)
  pub failures : ℕ

-- One file.
unfoldable pub write_one : Files → Text → Writer → Written → Written
unfolding write_file
write_one fs path w done = elim (write_file fs.hash (fs.opens path) w) [
  | none ↦ record done { failures = done.failures + 1 }
  | some bytes ↦ record done { files = done.files ++ ((path, bytes) ∷ []) }
]

unfoldable pub queue_path : Format → Text → ℕ → Text
queue_path fmt dir uid =
    let ext : Text = elim fmt [
      | Format.json ↦ codes ".json"
      | Format.perfetto ↦ codes ".pftrace"
    ] in
    dir ++ (codes "/queue-" ++ (to_dec uid ++ ext))

unfoldable pub write_queues : Files → Options → List (ℕ × Writer) → Written → Written
unfolding write_one queue_path
write_queues fs o [] acc = acc
write_queues fs o ((uid, w) ∷ more) acc =
    write_queues fs o more (write_one fs (queue_path o.fmt o.out_dir uid) w acc)

-- The path that the message of a new writer names.
unfoldable pub announced_path : Format → Text → Text → ℕ → Text
announced_path fmt dir comm uid =
    let ext : Text = elim fmt [
      | Format.json ↦ codes ".json"
      | Format.perfetto ↦ codes ".pftrace"
    ] in
    dir ++ (47 ∷ (comm ++ (45 ∷ (to_dec uid ++ ext))))

-- The end without a snapshot of the exporter: the files, and the exit code.
unfoldable pub finish : Files → Options → Session → Written × ℕ
unfolding write_queues write_one
finish fs o s =
    let none_written : Written = record { files = []; failures = 0 } in
    let all = write_queues fs o s.per_queue none_written in
    let one = write_one fs o.out s.single none_written in
    if o.prometheus_mode
    then (none_written, 0)
    else if o.all_mode
    then (all, if all.failures == 0 then 0 else 1)
    else (one, if one.failures == 0 then 0 else 1)
