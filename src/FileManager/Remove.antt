-- ===== src/FileManager/Remove.antt =====
-- `RemoveFile` of src/file_manager.cc: what it leaves as it was.
use pedrodb.Base.{ℕ, ◌≡◌, ◌≢◌, refl, arith, false, All, ==_refl, ==_ne, Bool-cases, inl, inr}
use pedrodb.Platform.{Platform}
use pedrodb.Base.Ids.{contains}
use pedrodb.File.{Faults}
use pedrodb.FileManager.{FileManager, remove_file, release_data_file, remove_files}
use pedrodb.FileManager.Acquire.{IsHandle}
use pedrodb.Lru.Laws.{remove-All}
use pedrodb.Metadata
use pedrodb.Metadata.{Manager}
use pedrodb.Status.{Status, ok}

-- What `RemoveFile` may change: the metadata, the handles, and the file with the id.
pub record IsRemoved (id : ℕ) (m m' : FileManager) : Type 0 where
  pub index_log : m'.active_index_log ≡ m.active_index_log
  pub data_file : m'.active_data_file ≡ m.active_data_file
  pub active : m'.active_file_id ≡ m.active_file_id
  pub others : (i : ℕ) → i ≢ id → m'.data_files i ≡ m.data_files i
  pub gone : (i : ℕ) → (m.data_files i).exists ≡ false → (m'.data_files i).exists ≡ false
  pub handles : All IsHandle m.open_files.entries → All IsHandle m'.open_files.entries

module _ ⦃p : Platform⦄ where
  remove_files-IsRemoved :
      (id : ℕ) (r : Status × Manager) (m : FileManager)
      → IsRemoved id m (remove_files id r (release_data_file id m)).1
  unfolding remove_files release_data_file
  remove_files-IsRemoved id (ok, metadata) m = record {
    index_log = refl;
    data_file = refl;
    active = refl;
    others = λ i h. rw (==_ne i id h) refl;
    gone = λ i h. ground arith;
    handles = λ h. remove-All IsHandle id m.open_files h;
  }
  remove_files-IsRemoved id (_, metadata) m = record {
    index_log = refl;
    data_file = refl;
    active = refl;
    others = λ i h. refl;
    gone = λ i h. h;
    handles = λ h. remove-All IsHandle id m.open_files h;
  }

  pub remove_file-IsRemoved :
      (io : Faults) (id : ℕ) (m : FileManager) → IsRemoved id m (remove_file io id m).1
  unfolding remove_file
  remove_file-IsRemoved io id m =
      remove_files-IsRemoved id (Metadata.delete_file io id (release_data_file id m).metadata) m

  delete_file-ok :
      (io : Faults) (id : ℕ) (m : Manager)
      → io.sync_fails ≡ false
      → (Metadata.delete_file io id m).0 ≡ ok
  unfolding Metadata.delete_file
  delete_file-ok io id m synced = elim (Bool-cases (contains id m.files)) [
    | inl here ↦ rw (here, synced) refl
    | inr none_is ↦ rw none_is refl
  ]

  remove_files-exists :
      (id : ℕ) (r : Status × Manager) (m : FileManager)
      → r.0 ≡ ok
      → ((remove_files id r m).1.data_files id).exists ≡ false
  unfolding remove_files
  remove_files-exists id (ok, metadata) m h = rw (==_refl id) refl
  remove_files-exists id (_, metadata) m h = cc

  -- Where the log of the metadata can be synced, the file is gone.
  pub remove_file-exists :
      (io : Faults) (id : ℕ) (m : FileManager)
      → io.sync_fails ≡ false
      → ((remove_file io id m).1.data_files id).exists ≡ false
  unfolding remove_file release_data_file
  remove_file-exists io id m synced =
      remove_files-exists id (Metadata.delete_file io id m.metadata) (release_data_file id m)
        (delete_file-ok io id m.metadata synced)
