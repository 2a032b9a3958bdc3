-- ===== src/KeyRing/Storage.antt =====
-- How src/temis_sso/keyring.py writes and reads its metadata file: `_save` and `_records`, in the order
-- of their calls of the file system, with what a crash leaves. A text that was not synchronised may be
-- lost in part, and an entry of the directory that was not synchronised may be the old or the new one.
use temis_sso_lab.Base.{
  ℕ, zero, suc, Bool, true, false, List, [], ◌∷◌, if◌then◌else◌, Result, ok, err, value_error, ◌≡◌,
  ◌⊎◌, inl, inr, refl,
}
use temis_sso_lab.KeyRing.{KeyRecord}

-- What a file holds: nothing, a text that was cut off, or the JSON text of records.
pub data Content : Type 0 where
  missing cut_off : Content
  whole : List KeyRecord → Content

-- A file's text as it is read, and as it is on the disk.
pub record File : Type 0 where
  pub text : Content
  pub on_disk : Content

abbrev pub no_file : File
no_file = record { text = missing; on_disk = missing }

-- The temporary file, and what the name of the metadata stands for: as it is read, and on the disk.
pub record Directory : Type 0 where
  pub temporary : File
  pub metadata : File
  pub metadata_on_disk : File

pub data Step : Type 0 where
  -- `handle.write(...)`, flushed: the text is there, and on the disk perhaps a part.
  writes : List KeyRecord → Step
  -- `os.fsync(handle.fileno())`
  syncs_file : Step
  -- `os.replace(temporary, self.metadata)`
  replaces : Step
  -- `self.metadata.chmod(0o600)`
  restricts : Step
  -- `os.fsync(directory)`
  syncs_directory : Step

unfoldable pub run_step : Step → Directory → Directory
run_step (writes records) d = record d {
  temporary = record { text = whole records; on_disk = cut_off };
}
run_step syncs_file d = record d {
  temporary = record { text = d.temporary.text; on_disk = d.temporary.text };
}
run_step replaces d = record d { temporary = no_file; metadata = d.temporary }
run_step restricts d = d
run_step syncs_directory d = record d { metadata_on_disk = d.metadata }

-- `_save`
unfoldable pub save_steps : List KeyRecord → List Step
save_steps records = writes records ∷ syncs_file ∷ replaces ∷ restricts ∷ syncs_directory ∷ []

-- The first steps, as many as were done before a crash.
unfoldable pub run_steps : ℕ → List Step → Directory → Directory
run_steps zero steps d = d
run_steps (suc n) [] d = d
run_steps (suc n) (step ∷ steps) d = run_steps n steps (run_step step d)

-- What a crash leaves under the name of the metadata; the flag says whether the new entry got to the
-- disk by itself.
abbrev pub after_crash : Bool → Directory → Content
after_crash flushed d = if flushed then d.metadata.on_disk else d.metadata_on_disk.on_disk

-- `_records`
unfoldable pub read_records : Content → Result (List KeyRecord)
read_records missing = ok []
read_records cut_off = err (value_error "JSONDecodeError")
read_records (whole records) = ok records

-- A directory at rest, with the records that are read from it.
pub record IsSettled (records : List KeyRecord) (d : Directory) : Type 0 where
  pub read : read_records d.metadata.text ≡ ok records
  pub kept : read_records d.metadata.on_disk ≡ ok records
  pub entered : read_records d.metadata_on_disk.on_disk ≡ ok records

-- What is read after a crash: the old records or the new ones.
survives :
    (done : ℕ) (flushed : Bool) (old new : List KeyRecord) (d : Directory)
    → IsSettled old d
    → (read_records (after_crash flushed (run_steps done (save_steps new) d)) ≡ ok old)
      ⊎ (read_records (after_crash flushed (run_steps done (save_steps new) d)) ≡ ok new)
unfolding run_steps save_steps run_step read_records
survives zero true old new d h = inl h.kept
survives zero false old new d h = inl h.entered
survives (suc zero) true old new d h = inl h.kept
survives (suc zero) false old new d h = inl h.entered
survives (suc (suc zero)) true old new d h = inl h.kept
survives (suc (suc zero)) false old new d h = inl h.entered
survives (suc (suc (suc zero))) true old new d h = inr refl
survives (suc (suc (suc zero))) false old new d h = inl h.entered
survives (suc (suc (suc (suc zero)))) true old new d h = inr refl
survives (suc (suc (suc (suc zero)))) false old new d h = inl h.entered
survives (suc (suc (suc (suc (suc zero))))) true old new d h = inr refl
survives (suc (suc (suc (suc (suc zero))))) false old new d h = inr refl
survives (suc (suc (suc (suc (suc (suc n)))))) true old new d h = inr refl
survives (suc (suc (suc (suc (suc (suc n)))))) false old new d h = inr refl

-- Saving is atomic and durable: whenever a crash interrupts it, and whatever the file system has
-- written by itself, the records that are read afterwards are the old ones or the new ones, complete;
-- once it has returned they are the new ones.
pub save_steps-atomic :
    (done : ℕ) (flushed : Bool) (old new : List KeyRecord) (d : Directory)
    → IsSettled old d
    → ((read_records (after_crash flushed (run_steps done (save_steps new) d)) ≡ ok old)
        ⊎ (read_records (after_crash flushed (run_steps done (save_steps new) d)) ≡ ok new))
      × IsSettled new (run_steps 5 (save_steps new) d)
unfolding run_steps save_steps run_step read_records
save_steps-atomic done flushed old new d h =
    (survives done flushed old new d h, record { read = refl; kept = refl; entered = refl })
