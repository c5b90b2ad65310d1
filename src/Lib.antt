-- ===== src/Lib.antt =====
-- Semaphore UI runs Ansible playbooks as tasks: this library models its services, its store on
-- BoltDB and the access to its projects, and proves what makes them correct.
--
-- The parts and how they interact. The API and the scheduler add a task with AddTask
-- (services/tasks/TaskPool.go), which files it in the database, makes a TaskRunner for it
-- (services/tasks/TaskRunner.go), reads its details and hands it to the loop of the TaskPool. The
-- loop asks the resource locker, a goroutine of its own, for the head of the queue and starts its
-- run; the run calls the job, locally or on a runner, and tells the locker when it has ended.
-- SetStatus writes each change to the database (db/Store.go) and tells the users. A runner
-- (services/runners/JobPool.go) fetches its jobs from the server and reports their progress
-- (api/runners/runners.go). The database is SQL or BoltDB (db/bolt/BoltDb.go).
--
-- Base holds the numbers, texts, lists and maps: a Go string is the list of its bytes, a map an
-- association list in one of the orders in which a loop may visit it. Model holds the structs of
-- package db (db/Task.go, db/Template.go and the others), the statuses (lib/Logger.go), the roles
-- (db/ProjectUser.go), and the interface TaskStore of what the task service asks of db.Store, with
-- the laws that the theorems name as StoreLaws.
--
-- Tasks models services/tasks. Tasks.World is the state: the pool, the memory of the runners, to
-- which the queue and the maps refer, the log, what has been sent, and the store; a Go panic is an
-- outcome. Tasks.Status is SetStatus, saveStatus and Log2, Tasks.Alert the alerts (alert.go),
-- Tasks.Pool the functions of TaskPool, Tasks.System the loop and the locker as a relation between
-- states, Tasks.Version getNextBuildVersion, Tasks.Incoming GetIncomingVersion (db/Task.go),
-- Tasks.Details populateDetails, Tasks.Add AddTask, StopTask and createTaskEvent, Tasks.Run the run
-- of a task, and Tasks.Stop what StopTask comes to. Tasks.Remote is the run of a remote job
-- (RemoteJob.go). Local is that of a local job (LocalJob.go, LobalJob_inventory.go): Local.Args the
-- arguments of the playbook, Local.Prepare the repository, the inventory, the keys and the
-- requirements, Local.Job the run, with the keys destroyed at its end. Host is the interface to
-- files, agents, git, Ansible and encoding/json that Keys.Install, Repo and Local share. Keys
-- models db/AccessKey.go, the secrets (Keys.Secret) and their files (Keys.Install), and
-- db/bolt/access_key.go (Keys.Table), Repo models db/Repository.go. Config models util/config.go:
-- Config.Settings the environment, the defaults and the validation as loops over the fields of a
-- struct with their tags, Config.Database the choice of a database. Runners models
-- services/runners/JobPool.go (Runners.Pool) and api/runners/runners.go (Runners.Server). Schedules
-- models services/schedules/SchedulePool.go. Sockets models the hub of api/sockets/pool.go. Access
-- models the middlewares of api/projects/project.go and the handlers of api/projects/users.go, Auth
-- the authentication of a request (api/auth.go) and the login (api/login.go). Bolt models
-- db/bolt/BoltDb.go: Bolt.Object its reflection on structs, Bolt.Props the tables (db/Store.go),
-- Bolt.Objects the reading and writing of objects, Bolt.Query pages, references and deletes,
-- Bolt.Connections the connections; on top of it Bolt.Sessions is db/bolt/session.go,
-- Bolt.Schedules db/bolt/schedule.go and db/bolt/task.go but for the joined fields, Bolt.Events
-- db/bolt/event.go and db/Event.go, and Bolt.Migration db/bolt/migration.go with its three
-- migrations, under Migrate of db/Migration.go (Migrations). Examples holds concrete states and the
-- theorems at them.
--
-- Choices. IDs, limits and times are natural numbers, so that a negative limit, which the code
-- takes as no limit, is 0; the IDs of Bolt and the numbers in versions are integers, and versions
-- keep the 64 bits of int. A step of the system is what one goroutine does between two messages,
-- and the limits of the projects do not change while it works. GetIncomingVersion recurses on fuel,
-- one more than the greatest number of a task, since a build was created before what deploys it; SQL
-- numbers the tasks upwards and BoltDB downwards. What other goroutines do while a remote job waits
-- for an answer is an argument. In a test of Tasks.Version the text is ASCII. The clock is an argument. Sorting in Bolt.Query is by
-- insertion, as package sort does up to twenty elements.
--
-- Parameters: the records TaskStore, External (the ciphers of access keys and encoding/json),
-- Bbolt, Codec and MembersCodec, Ciphers (encoding/base64, crypto/aes and crypto/cipher), KeyTable
-- (the operations of BoltDb.go on access keys), Host and Json, Cron, ScheduleStore, MigrationStore,
-- AuthStore and EventTables stand for code that is not modelled or that another part models, with
-- their laws, where the theorems need any, in the records StoreLaws, BboltLaws and so on. A job is
-- a function of its user and version, a webhook one of its payload; the environment,
-- regexp.MatchString and url.QueryEscape are functions; rand.Reader gives a text for a number of
-- bytes, or an error. MigrationStore is implemented by Bolt.Migration, and the tokens and sessions
-- of AuthStore by Bolt.Sessions. A panic that a transaction or a request recovers from is an
-- outcome or an error like any other.
--
-- Not modelled: the SQL store, the per-table files of db/bolt but for those named, the HTTP
-- handlers but for those named, the search in LDAP and OpenID Connect, the SSH agent, the clients
-- of git and Ansible, processes, the reading of the configuration file, the transport of mails and
-- posts.
pub mod Base
pub mod Model
pub mod Tasks
pub mod Host
pub mod Keys
pub mod Repo
pub mod Local
pub mod Migrations
pub mod Schedules
pub mod Config
pub mod Runners
pub mod Access
pub mod Auth
pub mod Sockets
pub mod Bolt
pub mod Examples
