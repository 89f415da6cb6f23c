-- ===== src/Lib.antt =====
-- ImageGenie's server preprocesses 3D models for a multi-view classifier and serves a labelling site. This
-- library models its Python core: the four pipeline stages and what they share, the names of the stored
-- objects, the push receiver with the record of failed jobs, the accounts with their sessions, the limits on
-- requests and logins, the site's models and labels, uploads, and the selections that training and its
-- evaluation draw from.
--
-- A job for a model goes through download, convert, normalize and render (server/app/workers). A stage reads
-- the tables and the bucket, skips work whose output is there, otherwise writes its output and its row, and
-- publishes the job of the next stage. The broker delivers at least once: a handler that raises is answered
-- by a 500, its failure is recorded (server/app/dead_letters.py), and the message comes again.
--
-- - Base: booleans, lists, texts as lists of code points, and dictionaries as association lists with laws.
-- - RateLimit: server/app/ratelimit.py. `check`, `retry_after` and `record_failure` take the moment as an
--   argument, as the source's `now`.
-- - ArtifactKeys: server/app/artifact_keys.py, one function for each of the source's.
-- - Pipeline: the tables (server/app/models.py), the bucket (storage.py), the queue (queue.py) and the
--   actions on them (workers/artifacts.py), as explicit state passing with failures as values. Pipeline/Mesh
--   is workers/mesh.py over a record of external functions; Pipeline/Download, Convert, Normalize and Render
--   are the `process` functions of the files of these names, and `run_job` is what the convert and normalize
--   handlers have in common. Pipeline/Reads and Pipeline/Stage carry their proofs, and Pipeline/Chain runs
--   one model through the four.
-- - DeadLetters: server/app/dead_letters.py, and the retry route of server/app/api.py.
-- - Accounts: the /auth routes of server/app/api.py over server/app/security.py. Accounts/Routes has the
--   routes, Accounts/Email the normalization of addresses on ASCII, Accounts/Csrf the middleware,
--   Accounts/Caller what tells who calls; a route takes the caller's address, the moment, and the tokens and
--   salts that it draws.
-- - CleanupRaw: server/app/cleanup_raw.py, on the pipeline's tables and bucket and the labels.
-- - Seeding: `publish_paced` of server/app/queue.py and `read_uids` of server/app/seed_variant.py; the
--   batches are taken on fuel, the number of the payloads, which is enough since a batch is not empty.
-- - WeakLabel: ml/weak_label.py over the tables of ml/taxonomy.py (WeakLabel/Taxonomy). A set of classes or
--   of tokens is a list; `str.lower` is followed as far as it makes letters of a token.
-- - DevSet: ml/build_dev_set.py, over a `digest` of uids, a `Reader` of the local file, of the stored bytes
--   and of the rows, and the table `dev_set_member`.
-- - Catalog: the model and label routes of server/app/api.py, and `load_trainable_samples` of ml/train.py.
--   Catalog/Routes has the routes on one model, Catalog/Listing the lists; a route takes the moment, and the
--   writing routes an administrator's id and address.
-- - Upload: the upload route of server/app/api.py. Upload/Paths has pathlib's `suffix` and `stem` of a POSIX
--   path; the chunks of the read are taken on the upload's length as fuel, and a chunk is never empty, so
--   the length is enough.
-- - TextureSubset: ml/build_texture_subset.py, from the rows of a census; `digest` is the SHA-256 of a
--   salted uid, and a row of a selection is its uid with the other columns.
-- - Splits: ml/splits.py.
-- - Metrics: ml/metrics.py, up to its counts.
-- - Reconcile: server/app/reconcile_from_storage.py. Reconcile has the scans and the upserts, Reconcile/Run
--   the whole run; the bucket is listed in the order of its entries, which a theorem leaves open, a run is
--   one transaction (server/app/db.py), and `_batched` takes its batches on fuel, the number of the rows,
--   which is enough since a batch is not empty.
-- - Push: server/app/web.py over the four handlers, and any sequence of deliveries and retries.
--
-- Times and extents are whole numbers. The loop of `_fetch_mesh` is recursion on the attempts that are left,
-- four at first, so it needs no fuel. The decimal of a number is written by recursion on fuel, the number
-- itself, and `value_from-decimal` in ArtifactKeys/Decimal reads the number back.
--
-- What is not under the repository is a parameter: trimesh, pyrender, objaverse and sha256 are the fields of
-- `Tools`, `digest` is the number that a split reads off a SHA-256, the text of an error is `describe`, and
-- the functions of bcrypt and of token hashing are the fields of `Hashes`; a drawn token is new. Each
-- delivery to a stage has `Tools` of its own, so what a mirror answers may change from one to the next;
-- within one theorem about one job they are fixed. A theorem about rendering assumes that the renderer makes
-- one image for each camera pose. No database, broker or storage error occurs, but for a deletion of the
-- cleanup, and each transaction of a worker is one step.
--
-- Not modelled: the rest of the API, mail, configuration, the command-line tools, the census of textures,
-- and training with its evaluation.
pub mod Base
pub mod Accounts
pub mod ArtifactKeys
pub mod Catalog
pub mod CleanupRaw
pub mod DeadLetters
pub mod DevSet
pub mod Metrics
pub mod Pipeline
pub mod Push
pub mod RateLimit
pub mod Reconcile
pub mod Seeding
pub mod Splits
pub mod TextureSubset
pub mod Upload
pub mod WeakLabel
