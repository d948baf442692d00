-- ===== src/Lib.antt =====
-- A verification of the core of the replication engine of Concord, a library for Byzantine fault
-- tolerant state machine replication. The code modelled here is under bftengine/src/bftengine/ in the
-- repository, with the interface bftengine/include/bftengine/IStateTransfer.hpp and the reply header
-- of bftengine/include/bftengine/ClientMsgs.hpp.
--
-- The parts of the program and how they interact. A group of n = 3F + 2C + 1 replicas orders the
-- requests of clients; in each view one replica is the primary (ReplicasInfo). A replica keeps a
-- sliding window of sequence numbers (SequenceWithActiveWindow) whose items collect messages of the
-- other replicas in certificates (MsgsCertificate) or in collectors of threshold signatures
-- (CollectorOfThresholdSignatures), whose shares background jobs combine; every 150 numbers such a
-- certificate makes a checkpoint stable (CheckpointInfo) and the window moves on. When the primary is suspected, the
-- replicas exchange view change messages, and the new view's first number and the restrictions on
-- its numbers are computed from a quorum of them (ViewChangeSafetyLogic, called by ViewsManager,
-- which keeps those messages and says when a view is entered). The primary's controller
-- (ControllerWithSimpleHistory) chooses between the fast and the slow commit paths from what a window
-- of 64 numbers has recorded. Executed requests are answered through the clients' records, and the
-- replies are kept in pages of the state transfer (ClientsManager). Bitmap is the set of requests
-- that the persistent storage stores with the last execution.
--
-- The files.
--   Base: the native numbers, Boolean tests, arrays as lists, and failure. `Assert(e)` of
--   assertUtils.hpp stops the process: a function that asserts, or that reads out of bounds or through
--   a null pointer, returns an Option whose `none` is that fault, and the theorems say when it does
--   not arise.
--   Replicas (ReplicasInfo.cpp, ReplicasInfo.hpp): primaryOfView, the identifiers, and the collectors
--   of getCollectorsForPartialProofs, proofs in Collectors and Ids.
--   ActiveWindow (SequenceWithActiveWindow.hpp): get, insideActiveWindow, resetAll and
--   advanceActiveWindow over a ring of WindowSize / Resolution slots; Slots has the arithmetic of the
--   ring, Ring the reset loop, Inside and Access the reads and writes, Advance the move.
--   Certificate (MsgsCertificate.hpp): addMsg with addPeerMsg and addSelfMsg, tryToMarkComplete,
--   bestCorrectMsg, resetAndFree. Messages and their equivalence are parameters. Support counts the
--   messages that agree, Invariant has the invariant, Peer, Own and Adding that each branch keeps it,
--   Quorum and Best what it gives, Waiting and Complete that enough agreement completes it, Twice how
--   the own message is counted.
--   Collector (CollectorOfThresholdSignatures.hpp): the state and what the replica's thread does to
--   it; Collector/Completion has both background jobs and the handlers of their results. The
--   template's parameters, the verifier and the order of the unordered map are the record External,
--   and Relies is what is assumed of them. Entries, Shares and Marking have the map and the shares of
--   a job, Invariant what holds between operations, Sending, Adding and Results that each operation
--   keeps it. System has the steps of the collector of the prepare messages of one place, with its
--   jobs and results in flight, in any order, and the handlers of ReplicaImp.cpp that let results
--   through or drop them, with what they assert of SeqNumInfo (SeqNumInfo.cpp); the messages that
--   these handlers send on are not modelled, and the completion of a number is not forced, as happens
--   in recovery. Picking and Flight are about what is in flight, Runs and Safety about every run, Lost
--   about a dropped result.
--   Checkpoint (CheckpointInfo.cpp, CheckpointMsg.cpp): the certificate of checkpoint messages of the
--   group, in Stable, and the checks of a received message, in Messages.
--   ViewChange (ViewChangeSafetyLogic.cpp, ViewChangeMsg.cpp): the elements of a view change message
--   and their iterator, the certificates and votes found for one number. ViewChange/Restrictions:
--   computeRestrictionsForSeqNum, computeRestrictions, calcLBStableForView, with the proofs of one
--   number in Select and Safety, of the whole array in Window, of the lower bound in Stable.
--   ViewsManager (ViewsManager.cpp, with addElement of ViewChangeMsg.cpp and
--   includesViewChangeFromReplica of NewViewMsg.cpp): the state, the messages that it takes and the
--   questions that it answers; ViewsManager/Exit leaving a view, Pending what makes a view pending,
--   Missing the restricted numbers, Entering the entrance, over ViewChange/Restrictions. Numbers is
--   about the views that are asked for and the missing messages, Quorum about the messages of a
--   pending view, Arrays and Handing about those of the restricted numbers, Moving, Invariant,
--   Entered and Leaving about the invariant of each operation, Safety about every run.
--   Controller (ControllerWithSimpleHistory.cpp): the events, over ActiveWindow with a window of 64;
--   Period has that window, Decisions the choices that need no state, Invariant and Events the
--   invariant, Paths what is decided at the end of a period.
--   Clients (ClientsManager.cpp, ClientReplyMsg.cpp): pending requests, in Pending and Earliest;
--   Clients/Replies: the replies in the reserved pages, over an interface of IStateTransfer.hpp, with
--   the pages in Ranges and Storage, a client's own reply in Latest and those of the others in Others.
--   Bitmap (Bitmap.hpp): bits in bytes, in Bytes and Access, and the form in a buffer, in Buffer.
--   The modules called Tests have runs at small inputs and an instance of each theorem.
--
-- Numbers. Sequence numbers, views and times are natural numbers: the code's 64-bit ones are not
-- negative and do not come near their bounds. Counters of 16 bits count replicas and do not wrap
-- around. Where the width matters it is written out: the sizes of Bitmap in 32 bits, the duration of
-- a round in 16, the number of clients in 16, and the fields of the reply header in bytes. Factors
-- such as 0.95F are fractions; the two products in single precision of the controller are written
-- with the exact significands of their factors.
--
-- Loops follow their data or a count. Two have fuel. The reset loop of the window gets one step more
-- than the ring has slots, and the loop over the iterators one more than there are iterators; each
-- theorem about them shows that the result is reached.
--
-- Parameters: the equivalence of messages; the combination of digests and the verification of
-- threshold signatures in the view change; the statistics of execution times, in double precision;
-- the page store, with the laws that its users rely on; the readings of the clock. A digest is a
-- number.
--
-- Not modelled: freeing of memory, logging, the byte layout and the signatures of view change
-- messages (their iterator runs over a list of elements), the event loop of ReplicaImp,
-- retransmissions, the implementations of state transfer, communication and cryptography.
pub mod Base
pub mod Replicas
pub mod ActiveWindow
pub mod Certificate
pub mod Collector
pub mod Checkpoint
pub mod ViewChange
pub mod ViewsManager
pub mod Bitmap
pub mod Clients
pub mod Controller
