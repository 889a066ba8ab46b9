-- ===== src/Lib.antt =====
-- Verification library of SecureStorage: encrypted storage of named data in files, with a backup
-- of each file, for a device.
--
-- The program. `SecureStorageManager` (src/SecureStorageManager.cpp) owns a `SecureStore`
-- (src/storage/SecureStore.cpp) and a `FileWatcher` (src/file_watcher/FileWatcher.cpp), and passes
-- the calls of the application to the store. The store derives a master key from the serial number
-- of the device with a `KeyProvider` (src/crypto/KeyProvider.cpp), seals data with an `Encryptor`
-- (src/crypto/Encryptor.cpp), and keeps it in files with `FileUtil` (src/utils/FileUtil.cpp). All
-- report the codes of `Errc` (src/utils/Error.h), and write to the `Logger`
-- (src/utils/Logger.cpp).
--
-- The files. Base: names shared by all, tests and lists on native numbers, text as lists of bytes.
-- Error: `Errc`, and its messages. Os: the calls of the operating system and of the C++ streams as
-- an interface; Os.Posix: their documented behaviour as laws; Os.Memory: a file system in memory
-- that has these laws; Os.Crash: a system on which the process dies; Os.Durable: a disk that loses
-- its power; Os.Memory.Disk: the one of the file system in memory. FileUtil: one function for each
-- method, with `createDirectories` split into `normalize`, `turn`, `visit` and `make_components`
-- (FileUtil.Components has the paths that it tries), and `atomicWriteFile` into
-- `ensure_directory`, `write_temporary` and `commit_temporary`. Crypto: Mbed TLS as an interface
-- with its laws; Crypto.KeyProvider and Crypto.Encryptor: the two classes; Crypto.Toy: a cipher
-- that has these laws. Naming: `validateDataId`, the paths of a data id, and the loop and the sort
-- of `listDataIds`. Store: the class `SecureStore`; `storeData` is `store_data`, with its steps
-- `store_encrypted`, `back_up`, `replace_main` and `restore_backup`, and `retrieveData` is
-- `retrieve_data`, with `retrieve_main` for the first stage, `retrieve_backup` for the second and
-- `restore_main` for its end; Store.Refinement: the versions of the data of each id that it
-- promises to keep, and Store.Refinement.Runs: its calls, the deaths of the process and the
-- restarts; Store.Crash: `storeData` in a process that dies; Store.Power: `atomicWriteFile`,
-- `storeData` and `retrieveData` on a disk that loses its power. Inotify: the calls of inotify, of
-- pipes and of threads as an interface; Inotify.Toy: a kernel where they succeed. Watcher: the
-- class `FileWatcher`, `start` and `stop` split at the calls that can fail and at the wait for the
-- thread; Watcher.Events: `processInotifyEvent`, `eventMaskToString` and the inner loop of
-- `monitorLoop`; Watcher.Monitor: `monitorLoop` as a thread beside the application's, with
-- Watcher.Monitor.Descriptors for the descriptors that it uses. Manager:
-- `SecureStorageManagerImpl` as `ManagerImpl`, and the methods of `SecureStorageManager` over
-- Store and Watcher; Manager.Client: an application that calls them one after the other. Logger:
-- the class `Logger`. Tool: `main` of examples/basic_usage.cpp, which encrypts and decrypts a file
-- with KeyProvider, Encryptor and FileUtil. Tests: runs of all of them.
--
-- The modelling. A method takes its object and the world, and gives its code, its outputs and the
-- new object and world. The world is unknown: the theorems hold for every system with the laws of
-- Os.Posix. There a call that opens, reads, writes, syncs, renames, removes or makes a directory
-- may fail in every world, and a failed call changes no directory; `stat` fails where a path leads
-- nowhere; and a listing may be cut short by an error of `readdir`, which the program takes for
-- its end: `reads_all` says that it is not. Os.Crash makes of a system one on which only so many
-- of the calls that change something are done and the rest fail, as for a process that dies.
-- Os.Durable says what a restart may find after a loss of power: the directories as they were at
-- some moment, since a journal writes their changes in their order, and of each file that was
-- synced, its contents. The laws speak of paths of different entries of one directory, and take
-- the entries for no links. `IsBase` says that a path ends in a slash, as the constructor of
-- `SecureStore` makes it unless the path ends in a backslash. A text is a list of byte values, and
-- so are the contents of a file. A path is handed to the system as `c_str` gives it, up to its
-- first NUL byte; Naming.Nul is about the ids that share their files by that, and Store.Shared
-- about storing under them. The loop of `createDirectories` runs on fuel, the length of the path
-- and one, which is enough. `none` of `store_data` and `retrieve_data` is the use of a null
-- encryptor.
--
-- The file watcher. `Step` interleaves the thread with one thread of the application that calls
-- the methods one after the other. A method, up to the wait of `stop`, is one step, as each takes
-- the lock once. The thread has a step for the test of its loop, for `poll` and `read`, whose
-- answers are left open, for the lookup of an event under the first lock of `processInotifyEvent`,
-- and for the rest of it under the second. As `poll` may return at any time, the model has more
-- behaviours than the program, and says nothing of how long `stop` waits. The inner loop runs on
-- fuel, the number of bytes and one, which is enough, and gives `none` for an event that goes
-- beyond the bytes that were read. `start` gives `none` where the assignment of a thread to a
-- joinable one ends the program. For the manager, and for `stop` as a whole, what the thread does
-- while `stop` waits is a parameter, so that it may do anything.
--
-- Not modelled: the branches for Windows, exceptions of the allocator, calls of one watcher by
-- several threads of the application at once, and the loss of power in `deleteData` and in the
-- creation of directories. Log lines are left out of the other classes: only the Logger itself has
-- its lines, with the clock and the decimal form of a number as parameters. The encryptor is keyed
-- for each call, so the library's context is not kept. Of what the file utility prints, only the
-- decrypted data is kept. The unit tests have no logic of their own.
pub mod Base
pub mod Error
pub mod Os
pub mod FileUtil
pub mod Crypto
pub mod Inotify
pub mod Watcher
pub mod Manager
pub mod Logger
pub mod Tool
pub mod Naming
pub mod Store
pub mod Tests
