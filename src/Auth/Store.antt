-- ===== src/Auth/Store.antt =====
-- auth/auth.go: what the coordinator keeps on disk.
pub mod Cell
pub mod Json
use mcp_remote_go.Base.{
  ℕ, ℤ, Bool, true, false, List, [], ◌∷◌, ◌++◌, Option, none, some, if◌then◌else◌, Bytes, codes,
  is_nil, Result, ok, err,
}
use mcp_remote_go.Auth.Discovery.{ServerMetadata}
use mcp_remote_go.FileLock.{FileLock, LockError, Opening, Closing, with_lock}
use mcp_remote_go.FileLock as FileLock

-- `Tokens`.
pub record Tokens : Type 0 where
  pub access_token : Bytes
  pub refresh_token : Bytes
  pub expires_in : ℤ
  pub token_type : Bytes

-- `ClientInfo`.
pub record ClientInfo : Type 0 where
  pub client_id : Bytes
  pub client_secret : Bytes
  pub client_id_issued_at : ℤ
  pub client_secret_expires_at : ℤ
  pub redirect_uris : List Bytes
  pub token_endpoint_auth_method : Bytes
  pub registered_issuer : Bytes

-- The files of `getMetadataPath`, `getClientInfoPath` and `getTokensPath`.
pub data File : Type 0 where
  server_metadata_json client_info_json tokens_json : File

-- What the files hold, where they exist.
pub record Disk : Type 0 where
  pub server_metadata : Option Bytes
  pub client_info : Option Bytes
  pub tokens : Option Bytes

abbrev pub file_content : Disk → File → Option Bytes
file_content d server_metadata_json = d.server_metadata
file_content d client_info_json = d.client_info
file_content d tokens_json = d.tokens

abbrev pub set_content : File → Option Bytes → Disk → Disk
set_content server_metadata_json b d = record d { server_metadata = b }
set_content client_info_json b d = record d { client_info = b }
set_content tokens_json b d = record d { tokens = b }

pub data StoreError : Type 0 where
  not_found : StoreError
  not_decoded not_encoded not_read not_written : Bytes → StoreError
  not_locked : LockError → StoreError

-- What the operating system does: the error of reading a file that exists, the error of writing one,
-- and what a write that failed leaves.
pub record Os : Type 0 where
  pub read_error : File → Option Bytes
  pub write_error : File → Option Bytes
  pub torn : File → Bytes → Option Bytes

-- `os.ReadFile`.
abbrev read_content : Option Bytes → Option Bytes → Result StoreError Bytes
read_content none e = err not_found
read_content (some b) none = ok b
read_content (some b) (some e) = err (not_read e)

unfoldable pub read_file : Os → File → Disk → Result StoreError Bytes
read_file os file d = read_content (file_content d file) (os.read_error file)

-- `os.WriteFile`.
unfoldable pub write_file : Os → File → Bytes → Disk → Disk × Option StoreError
write_file os file b d = elim (os.write_error file) [
  | none ↦ (set_content file (some b) d, none)
  | some e ↦ (set_content file (os.torn file b) d, some (not_written e))
]

-- `json.MarshalIndent` and `json.Unmarshal` at a type.
pub record Codec (A : Type 0) : Type 0 where
  pub encode : A → Result Bytes Bytes
  pub decode : Bytes → Result Bytes A

abbrev pub decoded : {A : Type 0} → Result Bytes A → Result StoreError A
decoded (ok a) = ok a
decoded (err e) = err (not_decoded e)

abbrev pub decoded_content : {A : Type 0} → Codec A → Result StoreError Bytes → Result StoreError A
decoded_content c (ok b) = decoded (c.decode b)
decoded_content c (err e) = err e

-- `loadServerMetadata`, `loadClientInfo`, and the function that `LoadTokens` runs under its lock.
unfoldable pub load : {A : Type 0} → Codec A → Os → File → Disk → Result StoreError A
unfolding read_file
load c os file d = decoded_content c (read_file os file d)

abbrev pub write_encoded : Os → File → Result Bytes Bytes → Disk → Disk × Option StoreError
write_encoded os file (ok b) d = write_file os file b d
write_encoded os file (err e) d = (d, some (not_encoded e))

-- `saveServerMetadata`, `saveClientInfo`, and the function that `SaveTokens` runs under its lock.
unfoldable pub save : {A : Type 0} → Codec A → Os → File → A → Disk → Disk × Option StoreError
save c os file a d = write_encoded os file (c.encode a) d

-- The lock of the file of tokens, and what its attempts and its release meet.
abbrev pub tokens_lock : Bytes → FileLock
tokens_lock path = FileLock.new path

pub record Locking : Type 0 where
  pub path : Bytes
  pub openings : List Opening
  pub closing : Closing

abbrev pub error_of : {A : Type 0} → Result StoreError A → Option StoreError
error_of (ok a) = none
error_of (err e) = some e

abbrev pub or_error : {A : Type 0} → Result StoreError A → Option StoreError → Result StoreError A
or_error r (some e) = err e
or_error r none = r

module _ (c : Codec Tokens) (os : Os) (l : Locking) where
  -- `LoadTokens`.
  unfoldable pub load_tokens : Disk → Result StoreError Tokens
  load_tokens d =
      or_error (load c os tokens_json d)
        (with_lock not_locked (tokens_lock l.path) l.openings l.closing
          (λ (s : Disk). (s, error_of (load c os tokens_json s))) d).2

  -- `SaveTokens`.
  unfoldable pub save_tokens : Tokens → Disk → Disk × Option StoreError
  save_tokens t d =
      let r =
        with_lock not_locked (tokens_lock l.path) l.openings l.closing
          (λ (s : Disk). save c os tokens_json t s) d in
      (r.1, r.2)

-- `getConfigDir`: the variable `MCP_REMOTE_CONFIG_DIR`, the home directory, and `filepath.Join`.
unfoldable pub get_config_dir : Bytes → Result Bytes Bytes → (Bytes → Bytes → Bytes) → Bytes
get_config_dir custom home join =
    if is_nil custom
    then elim home [
      | ok dir ↦ join dir (codes ".mcp-remote-go-auth")
      | err e ↦ codes ".mcp-remote-go-auth"
    ]
    else custom
