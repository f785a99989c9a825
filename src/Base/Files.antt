-- ===== src/Base/Files.antt =====
-- What a file of the data directory gives when it is read: its content once decoded, or a failure.

pub data File {ℓ} (A : Type ℓ) : Type ℓ where
  -- os.ErrNotExist
  missing : File A
  -- it cannot be read or decoded
  broken : File A
  holds : A → File A

pub data LoadError : Type 0 where
  not_exist not_readable : LoadError
