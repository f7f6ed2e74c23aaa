-- ===== src/Lib.antt =====
-- HanmirTalk, the company messenger: the core of its server.
--
-- The server keeps its data behind repositories (server/src/repositories/types.ts). The model is of
-- the in-memory adapter (server/src/repositories/memory.ts), of the sessions and the login routes
-- above it (server/src/auth, server/src/routes/auth.ts), of the poller that sends scheduled messages
-- (server/src/scheduled-poller.ts) and of the worker that makes the minutes of meetings
-- (server/src/meetings).
--
--   Prelude: arrays, maps, sets, sorting and optional values as the code uses them, with their laws.
--   Meeting: MemoryMeetingRepository. Recording has create, createSegment, recordChunk, finish and
--   cancel; Claims has claimNext, the stages and the waiting for slides; Artifacts has slides,
--   transcripts, minutes and retention. Chunks, Invariant, History and Claiming have the proofs.
--   User: MemoryUserRepository, MemoryDepartmentRepository and auth/password.ts; proofs in Accounts.
--   Message: MemoryMessageRepository; Threads has what is shown, Unread and Tombstones the proofs.
--   Room: MemoryRoomRepository with the flags of each user; proofs in Members, Visibility, Direct.
--   Project: MemoryProjectRepository; Milestones has the milestones, Teams the proofs.
--   Task: MemoryTaskRepository, which writes the counts of the projects too; proofs in Counts.
--   Auth: the session store, MemoryRefreshTokenRepository and the rotation and logout routes; Login
--   has /login and /change-password; proofs in Rotation, Ending, Limits and Entering.
--   Schedule: MemoryScheduledMessageRepository and the poller, which reads users, rooms and files
--   and appends to the messages; proofs in Delivery.
--   Notification: MemoryNotificationRepository; proofs in Unread.
--   Invitation: MemoryInvitationRepository and /accept-invite, which makes the account; proofs in
--   Accepting.
--   File: MemoryFileRepository with folders and storage; proofs in Listing.
--   Pipeline: the state that the meeting worker changes, its steps and the messages it posts
--   (meetings/post.ts). Transcribe, Stamps, Summarize, Documents and Stages have the stages of
--   meetings/pipeline.ts, Worker has meetings/worker.ts and finish.ts. It works on the rows of
--   Meeting, the messages of Message and the files of File. Machine has the status diagram;
--   Stillness, Follows, Progress, Ending and Refinement have the proofs.
--   Erp: MemoryErpRepository: variants, warehouses, balances and the ledger; Documents has
--   createDocument and cancelDocument; Rounding is about round2; proofs in Creation,
--   Lines, Ledger, Stock and Shortage.
--   Reaction: MemoryMessageReactionRepository; proofs in Chips.
--   Notice: MemoryNoticeRepository; proofs in Confirming.
--   Decision: MemoryDecisionRepository, with the confirmations of Notice; proofs in Viewing, Deleting.
--   Product: MemoryProductRepository; proofs in Cascade.
--   Push: MemoryPushSubscriptionRepository; proofs in Endpoints.
--   Tests: sample data, and each result below at a concrete input.
--
-- Each operation takes the state and answers the new state with its result; fields and functions
-- have the names of the code in snake case. Identifiers and tokens are numbers, since the code only
-- compares them and tests them for being empty, and 0 is the empty text. Instants are numbers of
-- milliseconds, ordered as the ISO texts are. What is drawn at random and the clock are arguments.
-- Text functions (trim, lower case, includes, slice), SHA-256 and bcryptjs are parameters; the laws
-- of bcryptjs that are used are fields of User.Bcrypt. The sort of an array is a stable insertion
-- sort, a Map a list of entries in insertion order. Sequence numbers start at -1 in
-- the code, so the model keeps the next one. Loops are structural recursion on a list; only the loop
-- of the pipeline has fuel: three turns, since a claimed meeting passes two stages at most before
-- the loop stops.
--
-- A step of the worker is a function of the state that returns or throws and keeps the state it has
-- reached. What the platform answers (clock, random identifiers, providers, files) is a function of
-- the number of calls so far, so the results hold for all answers. A stock quantity, which may be
-- negative, is a pair of what went in and what went out; different pairs may be the same number.
-- Quantities are exact, in units of 1 / 10 ^ 12: they have at most twelve digits after the point,
-- which the model rounds where the code does, and floating point makes no error of its own.
--
-- Numbers do not overflow in the code at the sizes that occur and are natural numbers here.
--
-- Not modelled: the PostgreSQL adapter, whose work is done by a database; realtime, mail, push, AI
-- and document libraries; the request parsing of the routes; the clients; seed data; timers and the
-- flags that keep two polls apart. The catch branch of the message poller is left out, since the
-- in-memory repositories do not throw. Of the ERP repository, weights, money, summaries and the MES
-- mapping are left out. The audit log, the organisation's notification defaults and the checks of
-- most routes are parts of their own that are not here yet.
pub mod Prelude
pub mod Meeting
pub mod User
pub mod Message
pub mod Room
pub mod Project
pub mod Task
pub mod Schedule
pub mod Auth
pub mod Notification
pub mod Invitation
pub mod Pipeline
pub mod File
pub mod Erp
pub mod Reaction
pub mod Notice
pub mod Decision
pub mod Product
pub mod Push
pub mod Tests
