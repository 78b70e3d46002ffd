-- ===== src/Lib.antt =====
-- Quarantine Lab: an isolated Windows lab on VirtualBox. A host program (go/cmd/quarantine) starts
-- the lab, takes snapshots before and after an analysis, and compares what changed. This library
-- models its pure core in Go; each file says which code it is about.
--
-- Disk (go/internal/disk) reads guest files out of snapshots without starting the machine:
--   Disk/Io            io.ReaderAt and readFullAt
--   Disk/Vdi           vdi.go: parseVDIHeader, loadVDIImage, (*vdiImage).ReadAt; its proofs below it
--   Disk/Chain         vdi.go: openVDIChain, which files stay open
--   Disk/Media         vbox_parse.go: the table of media, and the chain of a snapshot's disk
-- Policy (go/internal/config) is the allowlist for real internet:
--   Policy             config.go: PermissivePolicy; nft_policy.go: uniqueSortedPorts
--   Policy/Rules       nft_policy.go: the rule texts, as lists of rules that are printed
--   Policy/Verdict     what nftables does with a list of rules
-- Inspect (go/internal/pcapinspect) looks at the traffic that was captured:
--   Inspect/Ip, Flow   addresses and conversations
--   Inspect/Reserved   gateway/nftables.conf: the forward chain with its reserved addresses
--   Inspect/Breach     policy.go: conversations that the allowlist denies are marked
--   Inspect/Aggregate  aggregate.go: packets become conversations
--   Inspect/Follow     aggregate.go: DisplayFilterForID, the filter for an id
-- Guest (go/internal/agent) is the agent in the virtual machine:
--   Guest/Paths        guestpaths/paths.go: which files the host may read, write and start
--   Guest/Noise        collectors/file_noise.go: which changed files are routine noise
--   Guest/Journal      collectors/usn_windows.go: journal records out of the driver's buffer
--   Guest/Usn          collectors/usn_compact.go: the journal, reduced to one entry for each path
-- Registry (go/internal/registry) compares the registry of two snapshots:
--   Registry/Index     hive_index.go: the sorted index, its reader
--   Registry/Merge     hive_extract.go: mergeSortedRecords, for every choice of its heap
--   Registry/Diff      hive_diff.go: the merge join of two indexes
-- Compare (go/internal/diff) compares two manifests:
--   Compare            engine.go: indexFiles and diffFiles, on maps whose entries stand in any order
--   Compare/Dns        http_evidence.go: DedupDNSByQuery
--   Compare/Captured   engine.go: filesFromCapturedChanges
--   Compare/Filter     noise.go: FilterResultWith and the lists of noise that it takes
--   Compare/Hkcu       engine.go: suppressFalseHKCUDiff
-- Capture              go/internal/capture/manager.go: the session of a packet capture
-- Bodies               go/internal/httpbody/decode.go: the body of an HTTP message, decoded to be shown
-- Cases                go/internal/cases/store.go: the bodies that a saved comparison keeps, and deletion
-- Secrets              go/internal/config/secrets.go: passwords are generated, kept and checked
-- AppLog               go/internal/applog/buffer.go: the ring buffer of log lines
-- Prelude holds what they share: tests on numbers, lists, little-endian words, int, strings.
--
-- A uint32, uint64 or int64 is a natural number below its bound. Where the code can wrap, the model
-- does: offsets into a disk image are bit patterns of 64 bits. The loops of readFullAt and ReadAt take
-- as much fuel as bytes are wanted, since every round takes a byte or returns. DiffIndexes
-- takes as much as there are lines and one more, since every round but the last takes a line.
-- parseUsnRecordBuffer has one more than the bytes of the buffer, and each round takes at least 60.
-- mediaChain has one more than there are media. GeneratePassword may call itself as often as it is
-- told, and once is enough. Strings are lists of characters, with the case of
-- ASCII letters. Readers, opened files and net.ParseIP are parameters. So are
-- the decompressors of Bodies, the hash, the writes, filepath.FromSlash and filepath.Clean of Cases, the random numbers and the
-- files of Secrets, and filepath.Clean and
-- filepath.Base of the guest's Windows, time.Parse and Format, and url.Parse. The order in which Go walks
-- a map is the order of the map's list, and the choice of a heap among equal keys is any choice.
--
-- Not modelled: calls of VBoxManage, ssh, tshark and the agent over HTTP, JSON and XML decoding, the
-- user interface, and the PowerShell, Python and JavaScript beside the Go program.
pub mod Prelude
pub mod AppLog
pub mod Bodies
pub mod Capture
pub mod Cases
pub mod Compare
pub mod Disk
pub mod Guest
pub mod Inspect
pub mod Policy
pub mod Registry
pub mod Secrets
