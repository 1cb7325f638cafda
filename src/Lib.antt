-- ===== src/Lib.antt =====
-- Verification of deviceconnect, the service through which users reach the terminals, the ports and
-- the files of Mender devices. A device keeps a websocket to the service, a user opens another one,
-- and the messages of a session travel between the two on NATS subjects. The service admits users'
-- sessions, writes audit entries, records the terminal's output with control messages for its
-- pauses and sizes, and plays recordings back.
--
-- The parts, and where they are modelled:
--   Subject            model/session.go: GetSessionSubject and GetDeviceSubject
--   Session            model/session.go: Session and Validate
--   Control            app/control.go: Control, MarshalBinary, UnmarshalBinary
--   Recording.Stream   what is used of compress/gzip and of a cursor, as data
--   Recording.ControlReader  store/mongo/control_reader.go: NewControlMessageReader, Pop
--   Recording.Reader   store/mongo/recording_reader.go: RecordingReader.Read
--   Recording.Write    store/mongo/recording_writer.go, and sendControlMessage and
--                      WriteSessionRecords of store/mongo/datastore_mongo.go
--   Recording.Recorder  app/recorder.go, app/control_recorder.go, and InsertSessionRecording and
--                      InsertControlRecording of store/mongo/datastore_mongo.go
--   Store.Collection   the operations of a MongoDB collection that the store calls, with their laws
--   Store.Devices      store/mongo/datastore_mongo.go: ProvisionDevice to SetDeviceDisconnected
--   Store.Sessions     the same file: AllocateSession, DeleteSession, GetSession
--   Store.Migration    store/mongo/migration_2_0_1.go: Up, its indexes and its bulk writes; Runs has
--                      migrations.go, migration_1_0_0.go and doMigrations
--   Store.Uuid         store/mongo/bson.go: uuidEncodeValue and uuidDecodeValue
--   Workflows          client/workflows: AuditLog, Validate, SubmitAuditLog
--   App                app/app.go: PrepareUserSession, LogUserSession, FreeUserSession and the audit
--                      entries of file transfers; App.Shutdown has the registry of what a
--                      shutdown cancels
--   Device             api/http/device.go: ConnectServeWS, the websocket of a device; Device.Writer
--                      has its Connect and connectWSWriter
--   Terminal.UserLoop  api/http/management.go: connectServeWSProcessMessages, the read loop of a
--                      user's websocket; Terminal.Resize has its sendResizeMessage
--   Terminal.DeviceLoop  the same file: websocketWriter, handleSessLimit, recordSession
--   Terminal.Connect   the same file: Connect and ConnectServeWS
--   Terminal.Playback  the same file: Playback, and the writer of app/playback.go
--   FileTransfer       api/http/management_filetransfer.go: Messages has the publishing and decoding,
--                      Open filetransferHandshake and statFile, Download downloadFile, Upload
--                      uploadFileResponseWriter and the reader of the acknowledgements beside
--                      it, Requests getFileTransferParams and handleResponseError,
--                      DownloadHandler DownloadFile and downloadFileResponse, UploadHandler
--                      UploadFile, uploadFileResponse and parseUploadFileRequest
--   Http               api/http: Origins has cors.go, Authorization identity.go, Status status.go,
--                      Commands sendMenderCommand of both APIs, Devices GetDevice, Provision and
--                      Delete, Tenants DeleteTenant down to the store
--   Server             server/server.go: InitAndRun from the first connection to the exit;
--                      client/inventory: Search
--   Protocol, Errors   the messages of go-lib-micro and the error values, as far as they are looked at
--   Prelude            numbers, lists, options and texts; Examples has concrete runs
--
-- How the model stands to the code. A Go function is a function of the state that it reads, and it
-- returns the state that it leaves; methods that loop over what the network gives take the list of
-- what comes. Library and network calls are arguments: how a call ends is part of the input. Texts
-- are strings, bytes are numbers, times are numbers with 0 for the zero time, and the sizes of
-- messages are natural numbers (an int has 64 bits, and no size comes near its end). A slice out of
-- range is an outcome of its own. Loops that no list drives run on fuel: WriteSessionRecords gets
-- one unit for each byte of the records and of the control track and two more: each round takes
-- a byte of the one or a message of the other.
--
-- How the parts meet. Terminal.Connect prepares a session by App and Store.Sessions, serves it by
-- Terminal.UserLoop, and frees it by App again, on one database that is passed along, through the
-- audit entries and the limit of the writer beside it. The handlers of FileTransfer go from
-- Requests over Open to Download or Upload. Recording.Recorder writes the documents that
-- Recording.Write reads. App.Shutdown takes the arrivals and departures of connections as a list of
-- changes in any order, and Server ends the process by it.
--
-- Not modelled: the table of routes, the encoding by msgpack, JSON, BSON and gzip (but for UUIDs),
-- goroutines and timers as such (what a select finds is an input), the client of NATS, the
-- connection to the database, the command line and the settings.
pub mod Prelude
pub mod Errors
pub mod Protocol
pub mod Subject
pub mod Control
pub mod Recording
pub mod Device
pub mod Session
pub mod Store
pub mod Workflows
pub mod App
pub mod Terminal
pub mod FileTransfer
pub mod Http
pub mod Server
pub mod Examples
