-- ===== src/Storage/Files.antt =====
-- internal/service/storage.go: copying between files and S3, and deleting one object.
use api_calixio.Text.{Text, codes, trim_space}
use api_calixio.External.{External}
use api_calixio.Exec.{Exec, call, ◌>>=◌, ◌>>◌}
use api_calixio.Machine.{Machine}
use api_calixio.Storage.Objects.{StorageService, configured}

module _ (ext : External) (s : StorageService) where
  open ext use {X, get_object, put_object, delete_object}

  unfoldable pub delete_one_object : Text → Exec X (Unit {0})
  delete_one_object key = do configured ext s; call (delete_object s.bucket key)

  module _ (m : Machine X) where
    open m use {create_file, copy_to_file, read_file}

    -- The body of the object is read as it is copied; here it is read first.
    unfoldable pub download_object_to_file : Text → Text → Exec X (Unit {0})
    download_object_to_file key path = do
      configured ext s
      body ← call (get_object s.bucket key)
      call (create_file path)
      call (copy_to_file path body)

    unfoldable pub upload_file_with : Text → Text → Text → Text → Exec X (Unit {0})
    upload_file_with key content_type path acl = do
      configured ext s
      body ← call (read_file path)
      call (put_object s.bucket key content_type (trim_space acl) body)

    unfoldable pub upload_file : Text → Text → Text → Exec X (Unit {0})
    unfolding upload_file_with
    upload_file key content_type path = upload_file_with key content_type path (codes "")

    unfoldable pub upload_file_public : Text → Text → Text → Exec X (Unit {0})
    unfolding upload_file_with
    upload_file_public key content_type path =
        upload_file_with key content_type path (codes "public-read")
