-- ===== src/Auth/Store/Cell.antt =====
-- auth/auth.go: the files of the coordinator as three values that are set and read.
use mcp_remote_go.Base.{
  ◌≡◌, refl, sym, ap, ◌∙◌, List, [], ◌∷◌, Option, none, some, Bytes, Result, ok, err, Bool, true,
  All, is_nil, Bool-cases, inl, inr, err-ne-ok,
}
use mcp_remote_go.FileLock.{LockError, lock, with_lock}
use mcp_remote_go.Auth.Discovery.{ServerMetadata, json}
use mcp_remote_go.HttpClient as HttpClient
use mcp_remote_go.Auth.Store.Json.{is_tokens, is_client, is_metadata}
use mcp_remote_go.Auth.Store.{
  Tokens, ClientInfo, File, server_metadata_json, client_info_json, tokens_json, Disk, set_content,
  file_content, StoreError, not_locked, Os, read_file, write_file, Codec, load, write_encoded, save,
  tokens_lock, Locking, error_of, or_error, load_tokens, save_tokens,
}

-- What `json.MarshalIndent` and `json.Unmarshal` document for the structs of the program: a value
-- whose texts are valid UTF-8 and whose numbers fit is read back as it was written, and every value
-- that is read is such a value.
pub record IsLawful {A : Type 0} (is_kept : A → Bool) (c : Codec A) : Type 0 where
  pub encodes : (a : A) → is_kept a ≡ true → (b : Bytes) × (c.encode a ≡ ok b) × (c.decode b ≡ ok a)
  pub decodes : (b : Bytes) (a : A) → c.decode b ≡ ok a → is_kept a ≡ true

-- The operating system reads and writes the files.
pub record IsHealthy (os : Os) : Type 0 where
  pub reads : (file : File) → os.read_error file ≡ none
  pub writes : (file : File) → os.write_error file ≡ none

-- The lock of the tokens is acquired before the deadline.
abbrev pub IsFree : Locking → Type 0
IsFree l = (lock (tokens_lock l.path) l.openings).1 ≡ none

file_content-set_content :
    (file : File) (b : Option Bytes) (d : Disk) → file_content (set_content file b d) file ≡ b
file_content-set_content server_metadata_json b d = refl
file_content-set_content client_info_json b d = refl
file_content-set_content tokens_json b d = refl

module _ {A : Type 0} (c : Codec A) (os : Os) (healthy : IsHealthy os) where
  save-ok :
      (file : File) (a : A) (d : Disk) (b : Bytes)
      → c.encode a ≡ ok b
      → save c os file a d ≡ (set_content file (some b) d, none)
  unfolding save write_file
  save-ok file a d b h = rw (h, write_encoded) (rw (healthy.writes file, write_file))

  load-ok :
      (file : File) (d : Disk) (a : A) (b : Bytes)
      → file_content d file ≡ some b
      → c.decode b ≡ ok a
      → load c os file d ≡ ok a
  unfolding load read_file
  load-ok file d a b h k = rw (h, healthy.reads file) (rw k)

  module _ (is_kept : A → Bool) (law : IsLawful is_kept c) where
    pub load-save :
        (file : File) (a : A) (d : Disk)
        → is_kept a ≡ true
        → load c os file (save c os file a d).0 ≡ ok a
    load-save file a d h =
        let (b, encoded, read) = law.encodes a h in
        rw (save-ok file a d b encoded) (
          load-ok file (set_content file (some b) d) a b (file_content-set_content file (some b) d)
            read)

-- What `Response.JSON` gives is a value that JSON keeps.
pub json-is_kept :
    {A : Type 0} (c : Codec A) (is_kept : A → Bool)
    → IsLawful is_kept c
    → (resp : HttpClient.Response) (a : A) → json c.decode resp ≡ ok a
    → is_kept a ≡ true
unfolding json
json-is_kept c is_kept law resp a h = elim (Bool-cases (is_nil resp.body_bytes)) [
  | inl empty ↦ absurd (err-ne-ok _ refl (rw empty at h))
  | inr full ↦ law.decodes resp.body_bytes a (rw full at h)
]

abbrev to_option : {E A : Type 0} → Result E A → Option A
to_option (ok a) = some a
to_option (err e) = none

module _ {E S : Type 0} (wrap : LockError → E) (fn : S → S × Option E) (l : Locking) (s : S)
    (free : IsFree l) where
  with_lock-free : (with_lock wrap (tokens_lock l.path) l.openings l.closing fn s).1 ≡ (fn s).0
  unfolding with_lock
  with_lock-free = rw (free, with_lock)

  with_lock-error : (with_lock wrap (tokens_lock l.path) l.openings l.closing fn s).2 ≡ (fn s).1
  unfolding with_lock
  with_lock-error = rw (free, with_lock)

or_error-error_of : {A : Type 0} (r : Result StoreError A) → or_error r (error_of r) ≡ r
or_error-error_of (ok a) = refl
or_error-error_of (err e) = refl

-- The values that the files hold.
pub record Memory : Type 0 where
  pub server_metadata : Option ServerMetadata
  pub client_info : Option ClientInfo
  pub tokens : Option Tokens

-- The calls that store a value.
pub data Op : Type 0 where
  put_metadata : ServerMetadata → Op
  put_client : ClientInfo → Op
  put_tokens : Tokens → Op

-- The value of the call is one that JSON keeps.
abbrev pub IsStorable : Op → Type 0
IsStorable (put_metadata v) = is_metadata v ≡ true
IsStorable (put_client v) = is_client v ≡ true
IsStorable (put_tokens v) = is_tokens v ≡ true

abbrev pub replay : List Op → Memory → Memory
replay [] m = m
replay (put_metadata v ∷ ops) m = replay ops (record m { server_metadata = some v })
replay (put_client v ∷ ops) m = replay ops (record m { client_info = some v })
replay (put_tokens v ∷ ops) m = replay ops (record m { tokens = some v })

-- The three codecs of the coordinator.
pub record Codecs : Type 0 where
  pub metadata : Codec ServerMetadata
  pub client : Codec ClientInfo
  pub tokens : Codec Tokens

module _ (cs : Codecs) (os : Os) (l : Locking) where
  abbrev pub view : Disk → Memory
  view d = record {
    server_metadata = to_option (load cs.metadata os server_metadata_json d);
    client_info = to_option (load cs.client os client_info_json d);
    tokens = to_option (load_tokens cs.tokens os l d);
  }

  abbrev pub store : List Op → Disk → Disk
  store [] d = d
  store (put_metadata v ∷ ops) d = store ops (save cs.metadata os server_metadata_json v d).0
  store (put_client v ∷ ops) d = store ops (save cs.client os client_info_json v d).0
  store (put_tokens v ∷ ops) d = store ops (save_tokens cs.tokens os l v d).0

  module _ (free : IsFree l) where
    pub load_tokens-free :
        (d : Disk) → load_tokens cs.tokens os l d ≡ load cs.tokens os tokens_json d
    unfolding load_tokens
    load_tokens-free d =
        rw
          (with_lock-error not_locked
            (λ (s : Disk). (s, error_of (load cs.tokens os tokens_json s))) l d free)
          (or_error-error_of (load cs.tokens os tokens_json d))

    pub save_tokens-free :
        (t : Tokens) (d : Disk) → save_tokens cs.tokens os l t d ≡ save cs.tokens os tokens_json t d
    unfolding save_tokens
    save_tokens-free t d = λ i. (
      with_lock-free not_locked (λ (s : Disk). save cs.tokens os tokens_json t s) l d free i,
      with_lock-error not_locked (λ (s : Disk). save cs.tokens os tokens_json t s) l d free i,
    )

    module _ (healthy : IsHealthy os) (metadata : IsLawful is_metadata cs.metadata)
        (client : IsLawful is_client cs.client) (tokens : IsLawful is_tokens cs.tokens) where
      -- A saved file leaves what the others hold.
      other :
          {A B : Type 0} (c : Codec A) (b : Codec B) (is_kept : A → Bool) (law : IsLawful is_kept c)
          (file g : File) (a : A) (d : Disk)
          → is_kept a ≡ true
          → ((x : Option Bytes) → file_content (set_content file x d) g ≡ file_content d g)
          → load b os g (save c os file a d).0 ≡ load b os g d
      unfolding load read_file
      other c b is_kept law file g a d valid h =
          let (x, encoded, _) = law.encodes a valid in
          rw (save-ok c os healthy file a d x encoded, h (some x))

      Memory-path :
          {a b : Memory}
          → a.server_metadata ≡ b.server_metadata
          → a.client_info ≡ b.client_info
          → a.tokens ≡ b.tokens
          → a ≡ b
      Memory-path p q r = λ i. record { server_metadata = p i; client_info = q i; tokens = r i }

      -- The files refine three values in memory: after any calls that store metadata, clients and
      -- tokens, what is loaded from each file is what was stored last, and the others are untouched.
      -- The texts of the values are valid UTF-8 and their numbers are of 64 bits; of such values, JSON
      -- gives back what was written. The lock is acquired, and files can be read and written.
      pub view-store :
          (ops : List Op) (d : Disk) → All IsStorable ops → view (store ops d) ≡ replay ops (view d)
      view-store [] d h = refl
      view-store (put_metadata v ∷ ops) d h =
          view-store ops (save cs.metadata os server_metadata_json v d).0 h.1
          ∙ ap (replay ops) (
              Memory-path
                (ap to_option (
                  load-save cs.metadata os healthy is_metadata metadata server_metadata_json v d
                    h.0))
                (ap to_option (
                  other cs.metadata cs.client is_metadata metadata server_metadata_json
                    client_info_json v d h.0 (λ x. refl)))
                (ap to_option (
                  load_tokens-free (save cs.metadata os server_metadata_json v d).0
                  ∙ other cs.metadata cs.tokens is_metadata metadata server_metadata_json
                      tokens_json v d h.0 (λ x. refl)
                  ∙ sym (load_tokens-free d))))
      view-store (put_client v ∷ ops) d h =
          view-store ops (save cs.client os client_info_json v d).0 h.1
          ∙ ap (replay ops) (
              Memory-path
                (ap to_option (
                  other cs.client cs.metadata is_client client client_info_json server_metadata_json
                    v d h.0 (λ x. refl)))
                (ap to_option
                  (load-save cs.client os healthy is_client client client_info_json v d h.0))
                (ap to_option (
                  load_tokens-free (save cs.client os client_info_json v d).0
                  ∙ other cs.client cs.tokens is_client client client_info_json tokens_json v d h.0
                      (λ x. refl)
                  ∙ sym (load_tokens-free d))))
      view-store (put_tokens v ∷ ops) d h =
          ap (λ p. view (store ops p.0)) (save_tokens-free v d)
          ∙ view-store ops (save cs.tokens os tokens_json v d).0 h.1
          ∙ ap (replay ops) (
              Memory-path
                (ap to_option (
                  other cs.tokens cs.metadata is_tokens tokens tokens_json server_metadata_json v d
                    h.0 (λ x. refl)))
                (ap to_option (
                  other cs.tokens cs.client is_tokens tokens tokens_json client_info_json v d h.0
                    (λ x. refl)))
                (ap to_option (
                  load_tokens-free (save cs.tokens os tokens_json v d).0
                  ∙ load-save cs.tokens os healthy is_tokens tokens tokens_json v d h.0)))
