-- ===== src/Lib.antt =====
-- Picture-Stage: photographers share galleries with guests, who select pictures in them.
--
-- The program is a FastAPI server (app/) over PostgreSQL. Owners create galleries, upload images
-- and hand out share links; guests enter with a link, and a password where the gallery has one, and
-- mark pictures until the review is completed. The parts meet in the database: the guest paths read
-- the credentials and the status that the owner paths write, always behind the row locks that make
-- transactions on one gallery serial. A transaction is therefore a function from the tables to a
-- result with new tables; one that raises is rolled back and returns none. Where a handler reads
-- before it takes a lock, the tables that it read then are an argument of their own, so that any
-- other transactions may have committed in between.
--
-- Files, with the code they are about:
--   Base        library names passed on; Boolean tests, lists, tables, integers, errors as values
--   Models      app/db/models.py: statuses and the rows that the modelled code reads and writes
--   Examples    rows for the tests
--   Storage     Storage/Quota: app/storage/quota.py (`reserve`, `release`, `allocation_keys`)
--   Gallery     Status: `change_gallery_status` of app/galleries/management.py
--               Share: the credential commands of app/galleries/management.py behind the owner lock
--               of app/galleries/authorization.py, and `create_share_link` of
--               app/galleries/sharing.py
--               Slots: app/galleries/quota.py and `create_gallery` of app/galleries/router.py
--               Removal: app/galleries/deletion.py with app/images/storage_cleanup.py;
--               ByOwner there: `delete_gallery` of app/galleries/router.py
--               Csv, Export: app/galleries/csv_security.py, app/galleries/export.py; CsvReader is the
--               reader that their files are checked with, CsvSafe what a spreadsheet takes for a formula
--   Selections  `_project_selection_event` of app/db/models.py, app/selections/service.py
--   Guest       Access: the locks and sessions of app/guest/service.py
--               Sessions: `cleanup_expired_share_sessions` and `create_share_session` there
--               Credentials: app/guest/credentials.py; Pages: the image pages of
--               app/guest/service.py
--               Review: `create_selection_event` and `complete_review` of app/guest/router.py
--   Lookup      `resolve_gallery_by_token` of app/guest/service.py, `resolve_pending_signup` of
--               app/auth/token_lookup.py, `verification_lookup_id` of app/auth/tokens.py and
--               `LookupProgress` of app/auth/lookup_progress.py
--   Capacity    Images: `image_processing_slot` of app/images/process_pool.py
--               Hashing: app/galleries/password_hashing.py
--   Images      Upload: app/images/upload_batch.py, app/images/upload_limits.py and the steps of
--               `upload_images` of app/images/router.py
--               Deletion: `delete_image` and `bulk_delete_images` there, with app/images/storage_cleanup.py
--               Previews: app/images/preview_worker.py, started by `upload_images` of
--               app/frontend/galleries.py
--   Accounts    Auth: app/auth/dependencies.py and app/auth/revocation.py
--               Admin: the services of app/admin/service.py on one account
--               Removal: `delete_user` there; Signup: its approvals, and `consume_pending_signup` of
--               app/auth/token_lookup.py
--               Administration: the admin API as a step relation, gate and service together
--   Security    Captcha: app/security/captcha.py;
--               BodyLimit: `RequestBodySizeLimitMiddleware`, and Csrf: `CSRFMiddleware`, both of
--               app/security/middleware.py
--   Restore     Archive: `extract_archive` of app/cli/restore_archive.py
--
-- Numbers are unbounded as in Python, and a time is a number of microseconds. Each recursion
-- of the code's is on a list; `Lookup.Scan.follow` and `Guest.Pages.turn_pages` count the requests
-- that a client makes, and the theorems about them say how many are enough. A setting is not negative,
-- but for the gallery limit. The hash functions of hashlib and bcrypt are a record of
-- functions (`Models.Crypto`) with the one law that bcrypt accepts a password against its own hash.
--
-- Not modelled: templates and the server-rendered forms, translations, image decoding, the storage
-- backends, mail and webhooks, JWTs (a token is given by its decoded claims), schema migrations,
-- the JSON export, the making of a backup, the guards inside the tar parser, the charges and sizes of
-- previews in the preview worker, and the browser code;
-- columns that no modelled operation reads; HTTP encodings.
-- The row locks of PostgreSQL are taken to make transactions on one gallery, or on one owner's
-- quota, serial. Requests to the admin API are taken one after the other: the guard on the last
-- administrator takes no lock.
pub mod Base
pub mod Models
pub mod Examples
pub mod Storage
pub mod Gallery
pub mod Selections
pub mod Guest
pub mod Lookup
pub mod Capacity
pub mod Images
pub mod Accounts
pub mod Security
pub mod Restore
