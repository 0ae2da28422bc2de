-- ===== src/RawFiles.antt =====
-- legacy/app/api/internal/raw_files.py: workers upload files. The file system is a dictionary from
-- the texts of paths to contents; what becomes of the calls of the operating system is a parameter.
use taxlien_gateway.Prelude.{
  Bool, Option, none, some, String, starts_with, ◌<>◌, Dict, put, if◌then◌else◌,
}

abbrev pub storage_path : String
storage_path = "/Users/anton/proj/TAXLIEN.online/taxlien-sdd/data/raw"

-- `os.path.join` of a directory that does not end in "/" with a name.
abbrev pub join : String → String → String
join directory name = if starts_with name "/" then name else directory <> "/" <> name

-- The response with status "ok" and the path, the one with status "error" and the message, or an
-- exception.
pub data Upload : Type 0 where
  ok : String → Upload
  error : String → Upload
  raised : Upload

-- What becomes of the body of the `try`. `unopened`: opening the file raises an `Exception`, and no
-- file is changed. `whole`: everything succeeds. `failed`: the file is opened, which creates or
-- empties it, and then reading the upload, writing or closing raises an `Exception`, with so much
-- written. `stopped`: another exception ends it, such as a cancellation, before the file is opened
-- (`none`) or with so much written.
pub data Fate : Type 0 where
  unopened whole : Fate
  failed : String → Fate
  stopped : Option String → Fate

-- `os.makedirs` returns or raises, the body of the `try` has its fate at a path, and `str(e)` is the
-- text of the `Exception` there.
pub record Disk : Type 0 where
  pub makes_directory : Bool
  pub fate : String → Fate
  pub io_error : String → String

module _ (disk : Disk) where
  abbrev save : Fate → String → String → Dict String → Upload × Dict String
  save unopened file_path content files = (error (disk.io_error file_path), files)
  save whole file_path content files = (ok file_path, put files file_path content)
  save (failed written) file_path content files =
      (error (disk.io_error file_path), put files file_path written)
  save (stopped none) file_path content files = (raised, files)
  save (stopped (some written)) file_path content files = (raised, put files file_path written)

  -- The storage directory is made, and the paths joined, outside the `try`; joining raises where the
  -- upload has no file name.
  unfoldable pub upload_raw_file : Option String → String → Dict String → Upload × Dict String
  upload_raw_file filename content files =
      if disk.makes_directory
      then elim filename [
        | none ↦ (raised, files)
        | some name ↦
            let file_path = join storage_path name in
            save (disk.fate file_path) file_path content files
      ]
      else (raised, files)
