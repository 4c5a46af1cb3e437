-- ===== src/Lib.antt =====
-- Models of hdc-remote-kit, a gateway that lends HarmonyOS devices to remote hdc clients, and
-- theorems about them.
--
-- A client speaks the hdc daemon protocol to a gateway that listens on a port of the port pool
-- (internal/remote/ports.go). The gateway reads frames with the codec of internal/protocol, takes
-- session handshakes and transfer messages out of their payloads, asks the policy of
-- internal/policy whether a frame's command and a shell command may run, and bridges the rest to
-- the local hdc process. A remote host is let in by the registry of known hosts or by the operator
-- (internal/hostauth). Transfers go through a store of temporary files with a quota
-- (internal/bridge). A registry keeps the devices that the scans show (internal/device).
--
-- Strings       functions of Go's packages strings, utf8 and strconv on bytes
-- Base          shared tests, lists, Go's results and the bit operation of a varint byte
-- Protocol
--   Varint      varints of the standard library's encoding/binary, as the protocol's messages use
--               them
--   Cursor      cursor, appendVarintField, appendStringField and the loop over a message's fields,
--               internal/protocol/daemon.go
--   Commands    the command codes of internal/protocol/command_catalog.go
--   Catalog     officialCommands, legacyCommands, LookupCommand, CommandFamily, same file
--   Protect     encodeProtect and decodeProtect of internal/protocol/daemon.go
--   Frame       ReadFrame, Decode, EncodeFrame, decodeFrameHeader, payloadChecksum and the channel
--               close, same file
--   Handshake   SessionHandshake and its codec, same file; Tlv, AppendHandshakeTLV and
--               ParseHandshakeTLV; Version, ClientVersionTooOld; Replies, the encoded replies
--   ShellCommand  ExtractShellCommand, same file
--   Transfer    internal/protocol/transfer.go
--   Tlv         extractTLVValue of internal/protocol/daemon.go
-- Remote
--   Ports       portPool of internal/remote/ports.go: newPortPool, reserve, allocate, release
-- Policy
--   Text        the functions of package strings that the policy uses
--   Lexer       lexShellSegments of internal/policy/shell.go and its helpers
--   Resolve     resolveCommands, inlineShellCommand and their helpers, same file
--   Rules       the shell rules, same file
--   Inspect     InspectFrame, New and the profiles of internal/policy/policy.go; InspectShell,
--               analyzeShellCommand, expandSegments and FirstExecutable of
--               internal/policy/shell.go
-- HostAuth
--   Identity    ParseHostIdentity and ParseClientAuthType of internal/hostauth/crypto.go
--   Signature   VerifyChallenge, same file
--   Registry    the registry of internal/hostauth/registry.go with Submit and Record; Decide, Decide
--               and Revoke; Notices, Notify, Notices and DismissNotice
-- Gateway
--   Connection  daemonConnection of internal/gateway/gateway.go, and audit.go
--   Channels    admitChannel, teardownChannel, rejectChannel, stopShell, removeShell, same file
--   Input       appendShellInput, same file
--   Shell       handleShell and openShell, same file
--   Hosts       handleAuthPublicKey of internal/gateway/handshake.go
--   Handshake   handleHandshake, handleAuthNone and handleAuthSignature, same file
--   Permission  what each event of a connection's log needs before it
--   Route       route, handleKernel, run and close of internal/gateway/gateway.go
--   Listener    admit, Bind, UpdateGrant, Unbind and Close, same file
-- Bridge
--   TempStore   internal/bridge/temp_store.go
--   Paths       parseRecvCommand, splitCommandTokens, quoteCommandArg and the commands to the device
--   Upload      fileUpload and sendDownloadData of internal/bridge/file.go
-- Device
--   Registry    NewRegistry, refresh and markStale of internal/device/registry.go, and the device of
--               internal/model/model.go
-- Tests         concrete inputs for the theorems
--
-- Conventions. Bytes and code points are natural numbers; a machine integer keeps its range tests
-- and its wrap-around (`% 2 ^ 32`). A Go error is an `err` with one constructor for each message.
-- A cursor is the list of the unread bytes. The variables that the closures of lexShellSegments
-- share are one record, and the loop's body gets the next rune and says whether it used it. A Go
-- map is an association list, the list of its keys or the function from a key to its entry.
-- Codec.maxFrameBytes is an argument.
--
-- A connection is a state with a log of events, the newest first: a byte slice that is written, an
-- audit, a question to the registry, a target that is opened, input for a session, a frame for a
-- bridge. An operation takes the state to a status and a state. A shell session is known by its
-- number, the length of the log when it was opened.
--
-- Fuel. sendDownloadData has as many rounds as there are bytes, and ParseHandshakeTLV too. The
-- loop over a message's fields has as many rounds as the message has bytes, since a round reads
-- one byte at least. resolveCommands has one round more than there are tokens, since a
-- round drops one at least, and extractTLVValue one more than there are bytes. expandSegments
-- carries the number of levels that are left of maxInlineDepth. The second run of the lexer is
-- written out once, since it reads no quote.
--
-- Parameters. The answer of net.Listen to a probe is a function of the number of the probe and the
-- port. The result of a device scan is an argument. What the surroundings of a connection answer,
-- that is the socket, the registry and the operator, the resolver, the target channels and the
-- bridges, are functions of the length of the log. RSA, SHA, PEM, X.509 and base64 are the fields
-- of HostAuth.Identity.Crypto. The clock and the file system's answers are arguments.
--
-- Not modelled: internal/remote/manager.go; the lookups and the polling of internal/device; of
-- internal/gateway the live sessions and the deadlines; of internal/bridge the tables of transfers
-- and the handlers around them, app, Unity and forward; internal/hdc, internal/config,
-- internal/audit, internal/store, internal/logging, the rest of internal/model, internal/web and
-- cmd. In the model of strings.ToLower a letter keeps its case unless its lower case is ASCII. The
-- frames of one connection and what the readers of its shells do come one after the other, in any
-- order; so do the calls of the pool, of the registry and of the store, whose locks make each of
-- them one step. The window between the two locked sections of allocateOnce is not open to other
-- calls, and Submit's wait is two steps.
pub mod Base
pub mod Gateway
pub mod HostAuth
pub mod Bridge
pub mod Strings
pub mod Protocol
pub mod Remote
pub mod Device
pub mod Policy
pub mod Tests
