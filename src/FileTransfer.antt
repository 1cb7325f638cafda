-- ===== src/FileTransfer.antt =====
-- api/http/management_filetransfer.go: files go to devices and come from them in chunks.
pub mod Messages
pub mod Open
pub mod Requests
pub mod Download
pub mod DownloadHandler
pub mod Upload
pub mod UploadHandler
